-- ===== src/Client/Ranges.antt =====
-- The helpers at the end of src/xrd/client/file.py, and the ranges of src/xrd/types.py that they
-- work on. Offsets and lengths of vector reads and writes are natural numbers.
pub mod Batches
pub mod Packed
use py_xroot_dclient.Base.{
  ℕ, Bytes, [], ◌∷◌, zero, suc, ◌+◌, ◌-◌, ◌*◌, ◌/◌, ◌%◌, ◌++◌, Bool, true, false, Option, none,
  some, List, length, ◌==◌, if◌then◌else◌, not, ◌&&◌, ◌||◌, is_nil, ltb, leb,
}
use py_xroot_dclient.Base.Int.{ℤ, pos, negsuc, is_neg}
use py_xroot_dclient.Errors.{Result, ok, err, Error, value_error, protocol_error, ◌>>=◌}
use py_xroot_dclient.Crypto.Crc32c.Pages.{page_size}

abbrev pub readv_max_chunks : ℕ
readv_max_chunks = 1024

abbrev pub readv_max_bytes : ℕ
readv_max_bytes = 2097152

abbrev pub clone_max_ranges : ℕ
clone_max_ranges = 1024

pub record ReadRange : Type 0 where
  pub offset : ℕ
  pub length : ℕ

pub record WriteChunk : Type 0 where
  pub offset : ℕ
  pub body : Bytes

pub record CloneRange : Type 0 where
  pub offset : ℤ
  pub length : ℤ
  pub target_offset : Option ℤ

unfoldable pub destination : CloneRange → ℤ
destination r = elim r.target_offset [ none ↦ r.offset | some t ↦ t ]

-- `_range`
unfoldable pub range : CloneRange → Result CloneRange
range span =
    if is_neg span.offset || is_neg span.length || is_neg (destination span)
    then err value_error
    else ok span

-- `_packed_length`, of a size that is not negative; `-(-rest // page)` is rounded up.
unfoldable pub packed_length : ℕ → ℕ → ℕ
packed_length size offset =
    let head = page_size - offset % page_size in
    let rest = size - head in
    if size == 0 then 0 else size + 4 * (1 + (rest + (page_size - 1)) / page_size)

-- `batch and (len(batch) >= READV_MAX_CHUNKS or total + length > READV_MAX_BYTES)`, for a batch
-- of so many elements.
abbrev pub full : ℕ → ℕ → ℕ → Bool
full count total len =
    not (count == 0) && (leb readv_max_chunks count || ltb readv_max_bytes (total + len))

module _ {A : Type 0} (size : A → ℕ) where
  -- The loop of `_batches` and of `_write_batches` over the batch at hand, which they append to. A
  -- batch that was yielded is handed on at once; `refuse` is what a single element is refused for.
  unfoldable pub batch_loop : (A → Bool) → List A → ℕ → List A → List (List A) × Option Error
  batch_loop refuse batch total [] = (if is_nil batch then [] else batch ∷ [], none)
  batch_loop refuse batch total (x ∷ xs) =
      let later = batch_loop refuse (x ∷ []) (size x) xs in
      let joined = batch_loop refuse (batch ++ (x ∷ [])) (total + size x) xs in
      if refuse x
      then ([], some protocol_error)
      else if full (length batch) total (size x)
      then (batch ∷ later.0, later.1)
      else joined

-- `_batches`: the batches yielded, and the error raised behind them.
unfoldable pub batches : List ReadRange → List (List ReadRange) × Option Error
batches = batch_loop (λ r. r.length) (λ r. ltb readv_max_bytes r.length) [] 0

-- `_write_batches`
unfoldable pub write_batches : List WriteChunk → List (List WriteChunk)
write_batches chunks = (batch_loop (λ c. length c.body) (λ c. false) [] 0 chunks).0

-- `dict[int, list[bytes]]`: the answers by offset.
abbrev pub Answers : Type 0
Answers = List (ℕ × List Bytes)

unfoldable pub answers_at : Answers → ℕ → List Bytes
answers_at [] k = []
answers_at ((j, bs) ∷ d) k = let rest = answers_at d k in if j == k then bs else rest

-- `out.setdefault(offset, []).append(data)`
unfoldable pub add_answer : Answers → ℕ → Bytes → Answers
add_answer [] k b = (k, b ∷ []) ∷ []
add_answer ((j, bs) ∷ d) k b =
    let rest = add_answer d k b in if j == k then (j, bs ++ (b ∷ [])) ∷ d else (j, bs) ∷ rest

-- `answers.pop(0)`, on the list that stands in the dictionary.
unfoldable pub pop_answer : Answers → ℕ → Answers
pop_answer [] k = []
pop_answer ((j, []) ∷ d) k =
    let rest = pop_answer d k in if j == k then (j, []) ∷ d else (j, []) ∷ rest
pop_answer ((j, b ∷ bs) ∷ d) k =
    let rest = pop_answer d k in if j == k then (j, bs) ∷ d else (j, b ∷ bs) ∷ rest

-- `len(data) > wanted.length`
abbrev fitting : ℕ → Bytes → Answers → Result (Bytes × Answers)
fitting len b d = if ltb len (length b) then err protocol_error else ok (b, d)

-- `_segment_for(rng, out.get(rng.offset))`
unfoldable pub segment_for : ReadRange → Answers → Result (Bytes × Answers)
segment_for wanted d = elim (answers_at d wanted.offset) [
  | [] ↦ err protocol_error
  | b ∷ more ↦ fitting wanted.length b (if is_nil more then d else pop_answer d wanted.offset)
]

-- `[_segment_for(rng, ...) for rng in wanted]`
unfoldable pub segments_for : List ReadRange → Answers → Result (List Bytes)
segments_for [] d = ok []
segments_for (r ∷ rs) d =
    segment_for r d >>= λ got. segments_for rs got.1 >>= λ later. ok (got.0 ∷ later)
