-- ===== src/Daemon/Logs.antt =====
-- `ReadLogTail` of internal/daemon/service.go: the last lines of the log, in a ring of `n` lines.
-- `bufio.Reader.ReadLine` is a list of chunks; a chunk says whether its line goes on.
pub mod Tail
use distil_proxy.Base.{
  ℕ, zero, suc, ◌+◌, ◌%◌, ◌&&◌, Bool, true, false, Option, none, some, List, [], ◌∷◌, ◌++◌, ltb,
  leb, ◌==◌, if◌then◌else◌, length, set, take, replicate,
}
use distil_proxy.Base.Int.{ℤ, pos, pos_part, leb_ℤ}
use distil_proxy.Base.Text.{Text, is_empty}
use distil_proxy.Fetch.{Bytes}

pub data Chunks : Type 0 where
  chunk : Text → Bool → Chunks → Chunks
  end_of_file : Chunks
  read_error : Text → Chunks

pub record Ring : Type 0 where
  pub lines : List Text
  pub count : ℕ
  pub builder : Text

pub data LogError : Type 0 where
  open_error : Text → LogError
  read_log_error : Text → LogError

pub data Lines : Type 0 where
  lines : List Text → Lines
  failed : LogError → Lines

-- `lines[count%n] = lineBuilder.String(); count++; lineBuilder.Reset()`
unfoldable pub store_line : ℕ → Ring → Ring
store_line n r = record {
  lines = set r.lines (r.count % n) r.builder;
  count = r.count + 1;
  builder = [];
}

-- The loop over the chunks; `none` where a read fails.
unfoldable pub read_ring : ℕ → Chunks → Ring → Option Ring
unfolding store_line
read_ring n (chunk text is_prefix rest) r =
    let t = record r { builder = r.builder ++ text } in
    read_ring n rest (if is_prefix then t else store_line n t)
read_ring n end_of_file r = some (if is_empty r.builder then r else store_line n r)
read_ring n (read_error e) r = none

abbrev pub get_or {ℓ} : {A : Type ℓ} → List A → ℕ → A → A
get_or [] i d = d
get_or (x ∷ xs) zero d = x
get_or (x ∷ xs) (suc i) d = get_or xs i d

-- `tail[i] = lines[(start+i)%n]`, for the `rounds` rounds from `i` on.
unfoldable pub rotate_from : List Text → ℕ → ℕ → ℕ → ℕ → List Text
rotate_from ring start n i zero = []
rotate_from ring start n i (suc rounds) =
    get_or ring ((start + i) % n) [] ∷ rotate_from ring start n (i + 1) rounds

-- `trimTrailingEmptyLogLines`
unfoldable pub trim_trailing_empty : List Text → List Text
trim_trailing_empty [] = []
trim_trailing_empty (line ∷ rest) =
    let kept = trim_trailing_empty rest in
    if is_empty line && is_empty kept then [] else line ∷ kept

unfoldable pub ring_tail : ℕ → Ring → List Text
unfolding rotate_from trim_trailing_empty
ring_tail n r =
    if r.count == 0
    then []
    else if leb r.count n
    then trim_trailing_empty (take r.count r.lines)
    else trim_trailing_empty (rotate_from r.lines (r.count % n) n 0 n)

unfoldable pub read_failure : Chunks → LogError
read_failure (chunk text is_prefix rest) = read_failure rest
read_failure end_of_file = read_log_error []
read_failure (read_error e) = read_log_error e

-- `ReadLogTail` of an open file.
unfoldable pub read_log_tail : ℤ → Chunks → Lines
read_log_tail n file =
    if leb_ℤ n (pos 0)
    then lines []
    else let size = pos_part n in
      elim (read_ring size file (record { lines = replicate size []; count = 0; builder = [] })) [
        | some r ↦ lines (ring_tail size r)
        | none ↦ failed (read_failure file)
      ]
