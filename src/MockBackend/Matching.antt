-- ===== src/MockBackend/Matching.antt =====
-- What the prefix tracker of cmd/mock-backend/main.go measures.
use go_load_balance.Prelude.{
  ℕ, zero, suc, ◌≤◌, ◌≡◌, ◌⊎◌, inl, inr, refl, sym, ap, ap₂, subst, ◌∙◌, List, [], ◌∷◌, ◌++◌,
  Option, some, ltb, ◌==◌, if◌then◌else◌, length, take, drop, get_elem?, arith, Bool-cases,
  length-append,
}
use go_load_balance.Chain.{Bytes}
use go_load_balance.MockBackend.{
  MockRequest, canonical_text, common_prefix_len, PrefixTracker, longest_match, keep_recent,
  observe,
}

-- The two texts agree on their first `n` bytes, which both have.
pub record Agree (n : ℕ) (xs ys : Bytes) : Type 0 where
  pub in_left : n ≤ length xs
  pub in_right : n ≤ length ys
  pub same : take n xs ≡ take n ys

common_prefix_len-Agree : (xs ys : Bytes) → Agree (common_prefix_len xs ys) xs ys
unfolding common_prefix_len
common_prefix_len-Agree [] ys = record {
  in_left = omega arith;
  in_right = omega arith;
  same = refl;
}
common_prefix_len-Agree (x ∷ xs) [] = record {
  in_left = omega arith;
  in_right = omega arith;
  same = refl;
}
common_prefix_len-Agree (x ∷ xs) (y ∷ ys) =
    let rest = common_prefix_len-Agree xs ys in
    elim (Bool-cases (x == y)) [
      | inl eq ↦ rw eq (record {
        in_left = omega (arith, rest.in_left);
        in_right = omega (arith, rest.in_right);
        same = (let e : x ≡ y = ground arith in ap₂ ◌∷◌ e rest.same);
      })
      | inr ne ↦ rw ne (record { in_left = omega arith; in_right = omega arith; same = refl })
    ]

-- And on no more.
common_prefix_len-longest : (n : ℕ) (xs ys : Bytes) → Agree n xs ys → n ≤ common_prefix_len xs ys
unfolding common_prefix_len
common_prefix_len-longest zero xs ys agree = omega arith
common_prefix_len-longest (suc n) [] ys agree = absurd (omega (arith, agree.in_left))
common_prefix_len-longest (suc n) (x ∷ xs) [] agree = absurd (omega (arith, agree.in_right))
common_prefix_len-longest (suc n) (x ∷ xs) (y ∷ ys) agree =
    let heads : x ≡ y = cc (agree.same) in
    let tails : take n xs ≡ take n ys = cc (agree.same) in
    let rest = common_prefix_len-longest n xs ys (record {
      in_left = omega (arith, agree.in_left);
      in_right = omega (arith, agree.in_right);
      same = tails;
    }) in
    ground arith

-- A round keeps the longer of the two matches.
longer-le : (m n r : ℕ) → (if ltb m n then n else m) ≤ r → (m ≤ r) × (n ≤ r)
longer-le m n r h = elim (Bool-cases (ltb m n)) [
  | inl longer ↦ let kept : n ≤ r = subst (λ b. (if b then n else m) ≤ r) longer h in ground arith
  | inr shorter ↦ let kept : m ≤ r = subst (λ b. (if b then n else m) ≤ r) shorter h in ground arith
]

longest_match-ge : (ts : List Bytes) (text : Bytes) (m : ℕ) → m ≤ longest_match ts text m
unfolding longest_match
longest_match-ge [] text m = omega arith
longest_match-ge (t ∷ ts) text m =
    let n = common_prefix_len t text in
    (longer-le m n _ (longest_match-ge ts text (if ltb m n then n else m))).0

longest_match-all :
    (ts : List Bytes) (text : Bytes) (m i : ℕ) (t : Bytes)
    → get_elem? ts i ≡ some t
    → common_prefix_len t text ≤ longest_match ts text m
unfolding longest_match
longest_match-all [] text m i t at = cc
longest_match-all (t₀ ∷ ts) text m zero t at =
    let n = common_prefix_len t₀ text in
    let e : t₀ ≡ t = cc in
    let le = (longer-le m n _ (longest_match-ge ts text (if ltb m n then n else m))).1 in
    subst (λ x. common_prefix_len x text ≤ longest_match ts text (if ltb m n then n else m)) e le
longest_match-all (t₀ ∷ ts) text m (suc i) t at =
    let n = common_prefix_len t₀ text in longest_match-all ts text (if ltb m n then n else m) i t at

-- The match is the one that it starts from, or that of one of the texts.
longest_match-attained :
    (ts : List Bytes) (text : Bytes) (m : ℕ)
    → (longest_match ts text m ≡ m)
      ⊎ ((i : ℕ) × (t : Bytes) × (get_elem? ts i ≡ some t)
          × (longest_match ts text m ≡ common_prefix_len t text))
unfolding longest_match
longest_match-attained [] text m = inl refl
longest_match-attained (t ∷ ts) text m =
    let n = common_prefix_len t text in
    elim (longest_match-attained ts text (if ltb m n then n else m)) [
      | inr (i, t', at, e) ↦ inr (suc i, t', at, e)
      | inl kept ↦ elim (Bool-cases (ltb m n)) [
        | inl longer ↦ inr (0, t, refl, kept ∙ ap (λ b. if b then n else m) longer)
        | inr shorter ↦ inl (kept ∙ ap (λ b. if b then n else m) shorter)
      ]
    ]

keep_recent-newest :
    (ts : List Bytes) (x : Bytes)
    → length ts ≤ 1024
    → keep_recent (ts ++ x ∷ []) ≡ (if ltb (length ts) 1024 then ts else drop 1 ts) ++ x ∷ []
keep_recent-newest [] x few = refl
keep_recent-newest (t ∷ ts) x few = ground (arith, length-append ts (x ∷ []))

length-kept :
    (ts : List Bytes)
    → length ts ≤ 1024
    → length (if ltb (length ts) 1024 then ts else drop 1 ts) ≤ 1023
length-kept [] few = omega arith
length-kept (t ∷ ts) few = ground arith

le_trans : {a b c : ℕ} → a ≤ b → b ≤ c → a ≤ c
le_trans h k = omega arith

Agree-rw : (m n : ℕ) (xs ys : Bytes) → n ≡ m → Agree m xs ys → Agree n xs ys
Agree-rw m n xs ys e agree = subst (λ k. Agree k xs ys) (sym e) agree

module _ (decode : Bytes → Option MockRequest) (body : Bytes) (pt : PrefixTracker) where
  -- What the report stands on.
  abbrev Found : Bytes → Type 0
  Found text =
      (longest_match pt.texts text 0 ≡ 0)
      ⊎ ((i : ℕ) × (t : Bytes) × (get_elem? pt.texts i ≡ some t)
          × (longest_match pt.texts text 0 ≡ common_prefix_len t text))

  match_attained :
      (text : Bytes)
      → Found text
      → (longest_match pt.texts text 0 ≡ 0)
        ⊎ ((i : ℕ) × (t : Bytes) × (get_elem? pt.texts i ≡ some t)
            × Agree (longest_match pt.texts text 0) t text)
  match_attained text (inl e) = inl e
  match_attained text (inr (i, t, at, e)) =
      inr (i, t, at, Agree-rw _ _ t text e (common_prefix_len-Agree t text))

  match_le : (text : Bytes) → Found text → longest_match pt.texts text 0 ≤ length text
  match_le text (inl e) = omega (arith, e)
  match_le text (inr (i, t, at, e)) = omega (arith, e, (common_prefix_len-Agree t text).in_right)

  -- The tracker reports the length of the longest beginning that the request's text shares with a
  -- text that it remembers: some remembered text has it, unless it is 0, and none shares a longer
  -- one. It then remembers the text itself as the newest, and
  -- forgets the oldest one if it remembered 1024, so that it never remembers more.
  pub observe_matches :
      length pt.texts ≤ 1024
      → ((observe decode body pt).2 ≡ length (canonical_text decode body))
        × ((observe decode body pt).1 ≤ length (canonical_text decode body))
        × (((observe decode body pt).1 ≡ 0)
            ⊎ ((i : ℕ) × (t : Bytes) × (get_elem? pt.texts i ≡ some t)
                × Agree (observe decode body pt).1 t (canonical_text decode body)))
        × ((i n : ℕ) (t : Bytes)
            → get_elem? pt.texts i ≡ some t
            → Agree n t (canonical_text decode body)
            → n ≤ (observe decode body pt).1)
        × ((observe decode body pt).0.texts
            ≡ (if ltb (length pt.texts) 1024 then pt.texts else drop 1 pt.texts)
              ++ canonical_text decode body ∷ [])
        × (length (observe decode body pt).0.texts ≤ 1024)
  unfolding observe
  observe_matches few =
      let text = canonical_text decode body in
      let found = longest_match-attained pt.texts text 0 in
      (
        refl,
        match_le text found,
        match_attained text found,
        λ i n t at agree.
            le_trans (common_prefix_len-longest n t text agree)
              (longest_match-all pt.texts text 0 i t at),
        keep_recent-newest pt.texts text few,
        omega (
          arith,
          ap length (keep_recent-newest pt.texts text few),
          length-append (if ltb (length pt.texts) 1024 then pt.texts else drop 1 pt.texts)
              (text ∷ []),
          length-kept pt.texts few,
        ),
      )
