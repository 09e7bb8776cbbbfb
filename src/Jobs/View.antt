-- ===== src/Jobs/View.antt =====
-- What a client sees of the registry: which jobs are in flight, and how many.
use mathlib.Core.List.{Memᴰ}
use mathlib.Core.List.Memᴰ
use distil_proxy.Base.{
  ℕ, ◌+◌, ◌≡◌, refl, ◌↔◌, Option, none, some, List, [], ◌∷◌, arith, if◌then◌else◌, length,
  Bool-cases, Option-cases, ◌⊎◌, inl, inr,
}
use distil_proxy.Base.Text.{Text, text_eq, text_eq_iff, is_some}
use distil_proxy.Jobs.{
  Entry, Registry, job_exists, lookup, delete, start, finish, active_count, cancels, cancel_all,
}

-- No key stands twice, as in every Go map.
abbrev NodupKeys : List (Text × Entry) → Type 0
NodupKeys [] = Unit
NodupKeys ((key, _) ∷ jobs) = (lookup key jobs ≡ none) × NodupKeys jobs

abbrev pub IsMap : Registry → Type 0
IsMap r = NodupKeys r.jobs

abbrev pub in_flight : Registry → Text → Option Entry
in_flight r id = lookup id r.jobs

lookup-delete :
    (id j : Text) (jobs : List (Text × Entry))
    → lookup j (delete id jobs) ≡ (if text_eq id j then none else lookup j jobs)
unfolding lookup delete
lookup-delete id j [] = ground arith
lookup-delete id j ((key, entry) ∷ jobs) =
    ground (arith, lookup-delete id j jobs, text_eq_iff id j, text_eq_iff key j, text_eq_iff key id)

delete-NodupKeys :
    (id : Text) (jobs : List (Text × Entry)) → NodupKeys jobs → NodupKeys (delete id jobs)
unfolding delete
delete-NodupKeys id [] _ = tt
delete-NodupKeys id ((key, entry) ∷ jobs) (fresh, u) =
    ground (arith, delete-NodupKeys id jobs u, lookup-delete id key jobs)

delete_of_absent :
    (id : Text) (jobs : List (Text × Entry)) → lookup id jobs ≡ none → delete id jobs ≡ jobs
unfolding lookup delete
delete_of_absent id [] _ = refl
delete_of_absent id ((key, entry) ∷ jobs) h = ground (arith, delete_of_absent id jobs)

length-delete :
    (id : Text) (jobs : List (Text × Entry))
    → NodupKeys jobs
    → length (delete id jobs) + (if is_some (lookup id jobs) then 1 else 0) ≡ length jobs
unfolding lookup delete
length-delete id [] _ = ground arith
length-delete id ((key, entry) ∷ jobs) (fresh, u) =
    ground (arith, length-delete id jobs u, text_eq_iff key id, delete_of_absent id jobs)

-- `Start` refuses a job that is in flight and then changes nothing; it adds any other one, keeps
-- the rest, and the count grows by one. The map stays a map.
pub start_view :
    (r : Registry) (id j : Text) (cancel : Option ℕ) (now : ℕ)
    → IsMap r
    → let (r', e) = start id cancel now r in
      IsMap r'
      × (e ≡ (if is_some (in_flight r id) then some job_exists else none))
      × (in_flight r' j ≡ (
          if is_some (in_flight r id)
          then in_flight r j
          else if text_eq id j
          then some (record { started_at = now; cancel = cancel })
          else in_flight r j))
      × (active_count r' ≡ active_count r + (if is_some (in_flight r id) then 0 else 1))
unfolding start active_count
start_view r id j cancel now u = ground arith

-- `Finish` takes the job away and no other, and the count falls by one if it was there.
pub finish_view :
    (r : Registry) (id j : Text)
    → IsMap r
    → IsMap (finish id r)
      × (in_flight (finish id r) j ≡ (if text_eq id j then none else in_flight r j))
      × (active_count (finish id r) + (if is_some (in_flight r id) then 1 else 0) ≡ active_count r)
unfolding finish active_count
finish_view r id j u =
    (delete-NodupKeys id r.jobs u, lookup-delete id j r.jobs, length-delete id r.jobs u)

-- A job that was started and finished leaves the registry as it was before.
pub finish-start :
    (r : Registry) (id : Text) (cancel : Option ℕ) (now : ℕ)
    → in_flight r id ≡ none
    → finish id (start id cancel now r).0 ≡ r
unfolding finish start delete
finish-start r id cancel now absent =
    rw absent (ground (arith, delete_of_absent id r.jobs absent, text_eq_iff id id))

mem-cons_cancels :
    (c : ℕ) (key : Text) (entry : Entry) (jobs : List (Text × Entry))
    → Memᴰ c (cancels jobs)
    → Memᴰ c (cancels ((key, entry) ∷ jobs))
unfolding cancels
mem-cons_cancels c key entry jobs m = elim (Option-cases entry.cancel) [
  | inl nil ↦ rw (nil, cancels) m
  | inr (d, e) ↦ rw (e, cancels) (Memᴰ.tail m)
]

mem-cancels_cons :
    (c : ℕ) (key : Text) (entry : Entry) (jobs : List (Text × Entry))
    → Memᴰ c (cancels ((key, entry) ∷ jobs))
    → (entry.cancel ≡ some c) ⊎ Memᴰ c (cancels jobs)
unfolding cancels
mem-cancels_cons c key entry jobs m = elim (Option-cases entry.cancel) [
  | inl nil ↦ inr (rw (nil, cancels) at m)
  | inr (d, e) ↦
      let m' : Memᴰ c (d ∷ cancels jobs) = rw (e, cancels) at m in
      elim (Memᴰ.cases_cons m') [ inl h ↦ inl (ground arith) | inr t ↦ inr t ]
]

mem-cancels :
    (c : ℕ) (jobs : List (Text × Entry)) (id : Text) (e : Entry)
    → lookup id jobs ≡ some e
    → e.cancel ≡ some c
    → Memᴰ c (cancels jobs)
unfolding lookup cancels
mem-cancels c [] id e h k = cc
mem-cancels c ((key, entry) ∷ jobs) id e h k = elim (Bool-cases (text_eq key id)) [
  | inl same ↦
      let found : entry.cancel ≡ some c = ground arith in rw (found, cancels) (Memᴰ.head refl)
  | inr other ↦ mem-cons_cancels c key entry jobs (mem-cancels c jobs id e (ground arith) k)
]

cancels-mem :
    (c : ℕ) (jobs : List (Text × Entry))
    → NodupKeys jobs
    → Memᴰ c (cancels jobs)
    → (id : Text) × (e : Entry) × (lookup id jobs ≡ some e) × (e.cancel ≡ some c)
unfolding lookup cancels
cancels-mem c [] u m = elim m [ ]
cancels-mem c ((key, entry) ∷ jobs) (fresh, u) m = elim (mem-cancels_cons c key entry jobs m) [
  | inl e ↦ (key, entry, ground (arith, text_eq_iff key key), e)
  | inr rest ↦
      let (id, e, h, k) = cancels-mem c jobs u rest in
      (id, e, ground (arith, text_eq_iff key id), k)
]

-- `CancelAll` calls the cancel function of every job in flight that has one, and no other, and
-- leaves no job in flight.
pub cancel_all_view :
    (r : Registry) (c : ℕ)
    → IsMap r
    → (active_count (cancel_all r).0 ≡ 0)
      × (Memᴰ c (cancel_all r).1
          ↔ ((id : Text) × (e : Entry) × (in_flight r id ≡ some e) × (e.cancel ≡ some c)))
unfolding cancel_all active_count
cancel_all_view r c u =
    (refl, (cancels-mem c r.jobs u, λ (id, e, h, k). mem-cancels c r.jobs id e h k))

pub start_of_absent :
    (r : Registry) (id : Text) (cancel : Option ℕ) (now : ℕ)
    → in_flight r id ≡ none
    → (start id cancel now r).1 ≡ none
unfolding start
start_of_absent r id cancel now absent = ground arith

pub start_of_present :
    (r : Registry) (id : Text) (cancel : Option ℕ) (now : ℕ) (e : Entry)
    → in_flight r id ≡ some e
    → start id cancel now r ≡ (r, some job_exists)
unfolding start
start_of_present r id cancel now e present = ground arith
