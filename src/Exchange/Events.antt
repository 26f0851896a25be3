-- ===== src/Exchange/Events.antt =====
-- The events of a request, taken apart: what was read, what was written, and with which status.
use go_load_balance.Prelude.{◌≡◌, refl, ap, List, [], ◌∷◌, ◌++◌, map, String}
use go_load_balance.Chain.{Bytes}
use go_load_balance.RequestLog.{Event, read, write_body}
use go_load_balance.RequestLog.Entries.{reads, writes, chosen}
use go_load_balance.RequestLog.Status.{AllFinal, client_status}

pub reads-read : (cs : List Bytes) (es : List Event) → reads (map read cs ++ es) ≡ cs ++ reads es
reads-read [] es = refl
reads-read (c ∷ cs) es = ap (λ l. c ∷ l) (reads-read cs es)

pub writes-read : (cs : List Bytes) (es : List Event) → writes (map read cs ++ es) ≡ writes es
writes-read [] es = refl
writes-read (c ∷ cs) es = writes-read cs es

pub chosen-read :
    (url : String) (cs : List Bytes) (es : List Event)
    → chosen url (map read cs ++ es) ≡ chosen url es
chosen-read url [] es = refl
chosen-read url (c ∷ cs) es = chosen-read url cs es

pub client_status-read :
    (cs : List Bytes) (es : List Event) → client_status (map read cs ++ es) ≡ client_status es
client_status-read [] es = refl
client_status-read (c ∷ cs) es = client_status-read cs es

pub read-AllFinal : (cs : List Bytes) (es : List Event) → AllFinal es → AllFinal (map read cs ++ es)
read-AllFinal [] es final = final
read-AllFinal (c ∷ cs) es final = read-AllFinal cs es final

pub write_body-AllFinal : (cs : List Bytes) → AllFinal (map write_body cs)
write_body-AllFinal [] = tt
write_body-AllFinal (c ∷ cs) = write_body-AllFinal cs

pub reads-write_body : (cs : List Bytes) → reads (map write_body cs) ≡ []
reads-write_body [] = refl
reads-write_body (c ∷ cs) = reads-write_body cs

pub writes-write_body : (cs : List Bytes) → writes (map write_body cs) ≡ cs
writes-write_body [] = refl
writes-write_body (c ∷ cs) = ap (λ l. c ∷ l) (writes-write_body cs)

pub chosen-write_body : (url : String) (cs : List Bytes) → chosen url (map write_body cs) ≡ url
chosen-write_body url [] = refl
chosen-write_body url (c ∷ cs) = chosen-write_body url cs
