-- ===== src/Jobs.antt =====
-- internal/jobs/registry.go: the jobs in flight. The mutex makes each method one step.
pub mod View
use distil_proxy.Base.{
  ℕ, suc, ◌+◌, Bool, true, false, Option, none, some, List, [], ◌∷◌, if◌then◌else◌, length,
}
use distil_proxy.Base.Text.{Text, text_eq, is_some}

-- A context's cancel function is named by a number; `none` is a nil function.
pub record Entry : Type 0 where
  pub started_at : ℕ
  pub cancel : Option ℕ

-- The map, as the list of its entries.
pub record Registry : Type 0 where
  pub jobs : List (Text × Entry)

pub data RegistryError : Type 0 where
  job_exists : RegistryError

unfoldable pub new_registry : Registry
new_registry = record { jobs = [] }

unfoldable pub lookup : Text → List (Text × Entry) → Option Entry
lookup id [] = none
lookup id ((key, entry) ∷ jobs) = if text_eq key id then some entry else lookup id jobs

unfoldable pub delete : Text → List (Text × Entry) → List (Text × Entry)
delete id [] = []
delete id ((key, entry) ∷ jobs) =
    let rest = delete id jobs in if text_eq key id then rest else (key, entry) ∷ rest

-- `Start`, at the time `now`.
unfoldable pub start : Text → Option ℕ → ℕ → Registry → Registry × Option RegistryError
unfolding lookup
start id cancel now r =
    if is_some (lookup id r.jobs)
    then (r, some job_exists)
    else (record { jobs = (id, record { started_at = now; cancel = cancel }) ∷ r.jobs }, none)

unfoldable pub finish : Text → Registry → Registry
unfolding delete
finish id r = record { jobs = delete id r.jobs }

unfoldable pub active_count : Registry → ℕ
active_count r = length r.jobs

-- The cancel functions that the loop of `CancelAll` calls.
unfoldable pub cancels : List (Text × Entry) → List ℕ
cancels [] = []
cancels ((key, entry) ∷ jobs) = elim entry.cancel [
  | none ↦ cancels jobs
  | some c ↦ c ∷ cancels jobs
]

unfoldable pub cancel_all : Registry → Registry × List ℕ
unfolding cancels new_registry
cancel_all r = (new_registry, cancels r.jobs)
