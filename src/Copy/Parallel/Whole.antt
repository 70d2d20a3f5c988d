-- ===== src/Copy/Parallel/Whole.antt =====
-- What the workers of src/xrd/copy/engine.py have done when each has moved its span.
use py_xroot_dclient.Base.{
  ℕ, Bytes, List, [], ◌∷◌, ◌+◌, ◌++◌, ◌≡◌, ◌≤◌, ◌<◌, length, refl, arith, ap, sym, ◌∙◌, All, subst,
}
use py_xroot_dclient.Client.Server.{splice, slice}
use py_xroot_dclient.Copy.Plan.{spans}
use native.Mathlib.Decide.{dec_lt}
use py_xroot_dclient.Copy.Plan.Spans.{Tiles, spans-Tiles}
use py_xroot_dclient.Copy.Parallel.{
  Worker, Transfer, workers_of, begin, take_turn, move, Step, next, Reach, start, later,
}
use py_xroot_dclient.Copy.Parallel.Agreement.{
  byte_at, splice_there, splice_kept, length-splice, bytes_ext,
}

abbrev spans_of : List Worker → List (ℕ × ℕ)
spans_of [] = []
spans_of (w ∷ ws) = (w.offset, w.length) ∷ spans_of ws

abbrev pub all_moved : List Worker → ℕ
all_moved [] = 0
all_moved (w ∷ ws) = w.moved + all_moved ws

module _ (source : Bytes) where
  -- What a worker has moved stands in the target as in the source.
  pub record IsMoved (target : Bytes) (w : Worker) : Type 0 where
    pub within : w.moved ≤ w.length
    pub there :
        (k : ℕ)
        → w.offset ≤ k
        → k < w.offset + w.moved
        → k < length source
        → byte_at target k ≡ byte_at source k

  pub record Inv (t : Transfer) : Type 0 where
    pub tiles : Tiles 0 (length source) (spans_of t.workers)
    pub small : length t.target ≤ length source
    pub told : t.reported ≡ all_moved t.workers
    pub moved : All (IsMoved t.target) t.workers

  module _ (target : Bytes) (w : Worker) (n : ℕ)
      (fits : w.offset + w.moved + n ≤ length source) where
    abbrev written : Bytes
    written = splice (w.offset + w.moved) (slice (w.offset + w.moved) n source) target

    IsMoved-other : (v : Worker) → IsMoved target v → IsMoved written v
    IsMoved-other v m = record {
      within = m.within;
      there = λ k le lt inside.
          splice_kept (w.offset + w.moved) n k source target fits inside (m.there k le lt inside);
    }

    IsMoved-own : IsMoved target w → w.moved + n ≤ w.length → IsMoved written (take_turn n w)
    unfolding take_turn
    IsMoved-own m room = record {
      within = room;
      there = λ k le lt inside. elim (dec_lt k (w.offset + w.moved)) [
        | yes old ↦
            splice_kept (w.offset + w.moved) n k source target fits inside (m.there k le old inside)
        | no fresh ↦
            splice_there (w.offset + w.moved) n k source target fits (omega arith) (omega arith)
      ];
    }

    All-others : (ws : List Worker) → All (IsMoved target) ws → All (IsMoved written) ws
    All-others [] h = tt
    All-others (v ∷ ws) (m, h) = (IsMoved-other v m, All-others ws h)

    All-turn :
        (front back : List Worker)
        → w.moved + n ≤ w.length
        → All (IsMoved target) (front ++ (w ∷ back))
        → All (IsMoved written) (front ++ (take_turn n w ∷ back))
    All-turn [] back room (m, h) = (IsMoved-own m room, All-others back h)
    All-turn (v ∷ front) back room (m, h) = (IsMoved-other v m, All-turn front back room h)

  spans_of-turn :
      (n : ℕ) (w : Worker) (front back : List Worker)
      → spans_of (front ++ (take_turn n w ∷ back)) ≡ spans_of (front ++ (w ∷ back))
  unfolding take_turn
  spans_of-turn n w [] back = refl
  spans_of-turn n w (v ∷ front) back = ap (◌∷◌ (v.offset, v.length)) (spans_of-turn n w front back)

  all_moved-turn :
      (n : ℕ) (w : Worker) (front back : List Worker)
      → all_moved (front ++ (take_turn n w ∷ back)) ≡ all_moved (front ++ (w ∷ back)) + n
  unfolding take_turn
  all_moved-turn n w [] back = omega arith
  all_moved-turn n w (v ∷ front) back = omega (arith, all_moved-turn n w front back)

  Step-Inv : {chunk : ℕ} {t u : Transfer} → Step source chunk t u → Inv t → Inv u
  unfolding move
  Step-Inv {t} (next front back w n e some_bytes few room fits) inv = record {
    tiles =
        subst (Tiles 0 (length source)) (ap spans_of e ∙ sym (spans_of-turn n w front back))
          inv.tiles;
    small = length-splice (w.offset + w.moved) n source t.target fits inv.small;
    told = omega (arith, inv.told, ap all_moved e, all_moved-turn n w front back);
    moved = All-turn t.target w n fits front back room (subst (All (IsMoved t.target)) e inv.moved);
  }

  spans_of-workers : (l : List (ℕ × ℕ)) → spans_of (workers_of l) ≡ l
  unfolding workers_of
  spans_of-workers [] = refl
  spans_of-workers ((o, n) ∷ l) = ap (◌∷◌ (o, n)) (spans_of-workers l)

  none-IsMoved :
      (l : List (ℕ × ℕ)) → (0 ≡ all_moved (workers_of l)) × All (IsMoved []) (workers_of l)
  unfolding workers_of
  none-IsMoved [] = (refl, tt)
  none-IsMoved ((o, n) ∷ l) =
      let later = none-IsMoved l in
      (
        omega (arith, later.0),
        (record { within = omega arith; there = λ k le lt inside. absurd (omega arith) }, later.1),
      )

  begin-Inv : (workers : ℕ) → 1 ≤ length source → 1 ≤ workers → Inv (begin (length source) workers)
  unfolding begin
  begin-Inv workers some_bytes some_workers = record {
    tiles =
        subst (Tiles 0 (length source)) (sym (spans_of-workers (spans (length source) workers)))
          (spans-Tiles (length source) workers some_bytes some_workers).0;
    small = omega arith;
    told = (none-IsMoved (spans (length source) workers)).0;
    moved = (none-IsMoved (spans (length source) workers)).1;
  }

  pub Reach-Inv : {chunk : ℕ} {first t : Transfer} → Inv first → Reach source chunk first t → Inv t
  Reach-Inv inv start = inv
  Reach-Inv inv (later r s) = Step-Inv s (Reach-Inv inv r)

  -- Every byte lies in some span.
  covered :
      (target : Bytes) (at : ℕ) (ws : List Worker)
      → Tiles at (length source) (spans_of ws)
      → All (IsMoved target) ws
      → All (λ w. w.moved ≡ w.length) ws
      → (k : ℕ) → at ≤ k
      → k < length source
      → byte_at target k ≡ byte_at source k
  covered target at [] tiles moved done k le inside = absurd (omega arith)
  covered target at (w ∷ ws) (e, one, tiles) (m, moved) (d, done) k le inside =
      elim (dec_lt k (at + w.length)) [
        | yes here ↦ m.there k (omega arith) (omega arith) inside
        | no on ↦ covered target (at + w.length) ws tiles moved done k (omega arith) inside
      ]

  total_moved :
      (at : ℕ) (ws : List Worker)
      → Tiles at (length source) (spans_of ws)
      → All (λ w. w.moved ≡ w.length) ws
      → at + all_moved ws ≡ length source
  total_moved at [] tiles done = omega arith
  total_moved at (w ∷ ws) (e, one, tiles) (d, done) =
      omega (arith, total_moved (at + w.length) ws tiles done)

-- A parallel transfer in which every worker has moved its span, in whatever order their chunks came
-- and however short their reads were, has made the target the source, byte for byte, and the last
-- number that it reported is the size of the file.
pub in_parallel_whole :
    (source : Bytes) (chunk workers : ℕ) (t : Transfer)
    → 1 ≤ length source
    → 1 ≤ workers
    → Reach source chunk (begin (length source) workers) t
    → All (λ w. w.moved ≡ w.length) t.workers
    → (t.target ≡ source) × (t.reported ≡ length source)
in_parallel_whole source chunk workers t some_bytes some_workers run done =
    let inv = Reach-Inv source (begin-Inv source workers some_bytes some_workers) run in
    (
      bytes_ext t.target source inv.small (λ k inside.
          covered source t.target 0 t.workers inv.tiles inv.moved done k (omega arith) inside),
      omega (arith, inv.told, total_moved source 0 t.workers inv.tiles done),
    )
