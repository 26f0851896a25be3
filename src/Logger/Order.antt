-- ===== src/Logger/Order.antt =====
-- The connection counts on the status line are in decreasing order (lib/logger.go, `connsSummary`).
use mathlib.Core.List.{Perm}
use mathlib.Core.List.Perm
use go_load_balance.Prelude.{
  ℕ, suc, ◌+◌, ◌-◌, ◌<◌, ◌≤◌, ◌^◌, ◌≡◌, inl, inr, refl, sym, ap, ◌∙◌, List, [], ◌∷◌, ◌++◌, String,
  ℤ, pos, ◌≤ℤ◌, ◌-ℤ◌, -ℤ_parts, to_int_of_fits, pos_part, neg_part, ltb_ℤ, leb, length, take, drop,
  take-append-drop, length-take, length-drop, arith, int_laws, Bool-cases, true, false, zero,
}
use go_load_balance.Backend.{Backend}
use go_load_balance.Routing.Guard.{CountsNat}
use go_load_balance.Logger.{
  insert_by, sort_func, by_decreasing, conns_of_healthy, sorted_conns, summary_text, conns_summary,
}
use go_load_balance.Logger.Text.{join_ints, bracketed, elided}

-- No element is above `m`.
abbrev pub AllLe : ℤ → List ℤ → Type 0
AllLe m [] = Unit {0}
AllLe m (x ∷ xs) = (x ≤ℤ m) × AllLe m xs

abbrev pub IsDescending : List ℤ → Type 0
IsDescending [] = Unit {0}
IsDescending (x ∷ xs) = AllLe x xs × IsDescending xs

-- Numbers of connections, as an `int` holds them.
abbrev pub IsCount : ℤ → Type 0
IsCount x = (pos_part x < 2 ^ 63) × (neg_part x ≡ 0)

abbrev AllCounts : List ℤ → Type 0
AllCounts [] = Unit {0}
AllCounts (x ∷ xs) = IsCount x × AllCounts xs

-- The difference of two counts does not overflow.
by_decreasing_lem : (x y : ℤ) → IsCount x → IsCount y → by_decreasing x y ≡ y -ℤ x
by_decreasing_lem x y cx cy = to_int_of_fits (y -ℤ x) (omega int_laws)

by_decreasing-after :
    (x y : ℤ) → IsCount x → IsCount y → ltb_ℤ (pos 0) (by_decreasing x y) ≡ true → x ≤ℤ y
by_decreasing-after x y cx cy h =
    let e = by_decreasing_lem x y cx cy in ground (arith, e, -ℤ_parts y x)

by_decreasing-before :
    (x y : ℤ) → IsCount x → IsCount y → ltb_ℤ (pos 0) (by_decreasing x y) ≡ false → y ≤ℤ x
by_decreasing-before x y cx cy h =
    let e = by_decreasing_lem x y cx cy in ground (arith, e, -ℤ_parts y x)

AllLe-trans : (m n : ℤ) (xs : List ℤ) → m ≤ℤ n → AllLe m xs → AllLe n xs
AllLe-trans m n [] h all = tt
AllLe-trans m n (x ∷ xs) h (first, all) = (omega arith, AllLe-trans m n xs h all)

AllLe-insert_by :
    (m x : ℤ) (xs : List ℤ) → x ≤ℤ m → AllLe m xs → AllLe m (insert_by by_decreasing x xs)
AllLe-insert_by m x [] h all = (h, tt)
AllLe-insert_by m x (y ∷ ys) h (first, all) =
    elim (Bool-cases (ltb_ℤ (pos 0) (by_decreasing x y))) [
      | inl after ↦ rw after (first, AllLe-insert_by m x ys h all)
      | inr before ↦ rw before (h, (first, all))
    ]

AllCounts-insert_by :
    (x : ℤ) (xs : List ℤ) → IsCount x → AllCounts xs → AllCounts (insert_by by_decreasing x xs)
AllCounts-insert_by x [] h all = (h, tt)
AllCounts-insert_by x (y ∷ ys) h (first, all) =
    elim (Bool-cases (ltb_ℤ (pos 0) (by_decreasing x y))) [
      | inl after ↦ rw after (first, AllCounts-insert_by x ys h all)
      | inr before ↦ rw before (h, (first, all))
    ]

insert_by-IsDescending :
    (x : ℤ) (xs : List ℤ)
    → IsCount x
    → AllCounts xs
    → IsDescending xs
    → IsDescending (insert_by by_decreasing x xs)
insert_by-IsDescending x [] c cs d = (tt, tt)
insert_by-IsDescending x (y ∷ ys) c (c_y, cs) (below, d) =
    elim (Bool-cases (ltb_ℤ (pos 0) (by_decreasing x y))) [
      | inl after ↦
          let le = by_decreasing-after x y c c_y after in
          rw after (AllLe-insert_by y x ys le below, insert_by-IsDescending x ys c cs d)
      | inr before ↦
          let le = by_decreasing-before x y c c_y before in
          rw before ((le, AllLe-trans y x ys le below), (below, d))
    ]

insert_by-perm : (x : ℤ) (xs : List ℤ) → Perm (insert_by by_decreasing x xs) (x ∷ xs)
insert_by-perm x [] = Perm.rfl
insert_by-perm x (y ∷ ys) = elim (Bool-cases (ltb_ℤ (pos 0) (by_decreasing x y))) [
  | inl after ↦ rw after (Perm.trans (Perm.cons y (insert_by-perm x ys)) (Perm.swap x y ys))
  | inr before ↦ rw before Perm.rfl
]

sort_func-AllCounts : (xs : List ℤ) → AllCounts xs → AllCounts (sort_func by_decreasing xs)
unfolding sort_func
sort_func-AllCounts [] cs = tt
sort_func-AllCounts (x ∷ xs) (c, cs) =
    AllCounts-insert_by x (sort_func by_decreasing xs) c (sort_func-AllCounts xs cs)

sort_func-IsDescending : (xs : List ℤ) → AllCounts xs → IsDescending (sort_func by_decreasing xs)
unfolding sort_func
sort_func-IsDescending [] cs = tt
sort_func-IsDescending (x ∷ xs) (c, cs) =
    insert_by-IsDescending x (sort_func by_decreasing xs) c (sort_func-AllCounts xs cs)
      (sort_func-IsDescending xs cs)

sort_func-perm : (xs : List ℤ) → Perm (sort_func by_decreasing xs) xs
unfolding sort_func
sort_func-perm [] = Perm.rfl
sort_func-perm (x ∷ xs) =
    Perm.trans (insert_by-perm x (sort_func by_decreasing xs)) (Perm.cons x (sort_func-perm xs))

conns_of_healthy-AllCounts : (bs : List Backend) → CountsNat bs → AllCounts (conns_of_healthy bs)
conns_of_healthy-AllCounts [] nat = tt
conns_of_healthy-AllCounts (b ∷ bs) nat =
    let rest = conns_of_healthy-AllCounts bs (λ i c at. nat (suc i) c at) in
    elim (Bool-cases b.healthy) [ inl up ↦ rw up (nat 0 b refl, rest) | inr down ↦ rw down rest ]

-- What the text shows of the sorted list: all of it, or its two ends.
pub data Shown (itoa : ℤ → String) (conns : List ℤ) (text : String) : Type 0 where
  all : length conns ≤ 30 → text ≡ bracketed (join_ints itoa conns) → Shown itoa conns text
  ends :
      (front middle back : List ℤ)
      → conns ≡ front ++ (middle ++ back)
      → length front ≡ 15
      → length back ≡ 15
      → 0 < length middle
      → text ≡ elided (join_ints itoa front) (join_ints itoa back)
      → Shown itoa conns text

drop_nil {ℓ} : {A : Type ℓ} (n : ℕ) → drop {A = A} n [] ≡ []
drop_nil zero = refl
drop_nil (suc n) = refl

drop-drop {ℓ} : {A : Type ℓ} (m n : ℕ) (xs : List A) → drop m (drop n xs) ≡ drop (n + m) xs
drop-drop m zero xs = ap (λ k. drop k xs) (omega arith)
drop-drop m (suc n) [] = drop_nil m ∙ sym (drop_nil (suc n + m))
drop-drop m (suc n) (x ∷ xs) = drop-drop m n xs ∙ ap (λ k. drop k (x ∷ xs)) (ap suc refl ∙ suc_add)
  where
    suc_add : suc (n + m) ≡ suc n + m
    suc_add = omega arith

summary_text-Shown :
    (itoa : ℤ → String) (conns : List ℤ) → Shown itoa conns (summary_text itoa conns)
summary_text-Shown itoa conns = elim (Bool-cases (leb (length conns) 30)) [
  | inl few ↦ all (ground arith) (rw few refl)
  | inr many ↦
      let long : 30 < length conns = ground arith in
      let n = length conns - 30 in
      let back_is : drop n (drop 15 conns) ≡ drop (length conns - 15) conns =
        drop-drop n 15 conns ∙ ap (λ k. drop k conns) (omega arith) in
      ends (take 15 conns) (take n (drop 15 conns)) (drop n (drop 15 conns))
        (sym (
          ap (λ zs. take 15 conns ++ zs) (take-append-drop n (drop 15 conns))
          ∙ take-append-drop 15 conns))
        (omega (arith, length-take 15 conns))
        (omega (arith, length-drop n (drop 15 conns), length-drop 15 conns))
        (omega (arith, length-take n (drop 15 conns), length-drop 15 conns))
        (rw many
          (ap (λ zs. elided (join_ints itoa (take 15 conns)) (join_ints itoa zs)) (sym back_is)))
]

-- The summary of counters that are not negative.
pub conns_summary_lists :
    (itoa : ℤ → String) (bs : List Backend)
    → CountsNat bs
    → IsDescending (sorted_conns bs)
      × Perm (sorted_conns bs) (conns_of_healthy bs)
      × Shown itoa (sorted_conns bs) (conns_summary itoa bs)
unfolding conns_summary
conns_summary_lists itoa bs nat = (
  sort_func-IsDescending (conns_of_healthy bs) (conns_of_healthy-AllCounts bs nat),
  sort_func-perm (conns_of_healthy bs),
  summary_text-Shown itoa (sorted_conns bs),
)
