-- ===== src/Tests/Copies.antt =====
-- Transfers that are split, read ahead and verified.
use py_xroot_dclient.Base.{
  ℕ, Bytes, [], ◌∷◌, ◌≡◌, refl, arith, List, true, false, none, some, Option, suc,
}
use py_xroot_dclient.Base.Text.{codes}
use py_xroot_dclient.Errors.{ok, Error, connection_error, is_os_error}
use py_xroot_dclient.Copy.Plan.{spans, spans_from}
use py_xroot_dclient.Copy.Parallel.{
  Worker, Transfer, begin, workers_of, move, take_turn, next, Reach, start, later,
}
use py_xroot_dclient.Copy.Parallel.Whole.{in_parallel_whole}
use py_xroot_dclient.Copy.Ahead.{
  Ahead, begin_ahead, offers, offer, take_out, offering, taking, AheadReach, AheadStep, at_start,
  then_step, piece, failed, finished, returned, raised,
}
use py_xroot_dclient.Copy.Ahead.InOrder.{ahead_in_order, ahead_goes_on}
use py_xroot_dclient.Copy.Transfer.{
  Storage, Order, copy, plan, divided, verified, checkable, wanted, compare_with, if_possible,
  remove_if,
}
use py_xroot_dclient.Copy.Plan.{spread, divisible, is_local, is_root}
use py_xroot_dclient.Client.Io.{◌>>=◌, pure, raise, lift, try_except}
use py_xroot_dclient.Url.{lower}
use py_xroot_dclient.Copy.Ahead.{Item}
use py_xroot_dclient.Copy.Transfer.Verified.{copy_raised-keeps}
use py_xroot_dclient.Tests.Pool.{server}

abbrev source : Bytes
source = codes "abcde"

-- Two workers; the second moves its span first.
abbrev left : Worker
left = record { offset = 0; length = 3; moved = 0 }

abbrev right : Worker
right = record { offset = 3; length = 2; moved = 0 }

abbrev second_done : Transfer
second_done = move source 2 right (left ∷ []) [] (begin 5 2)

abbrev first_part : Transfer
first_part = move source 1 left [] (take_turn 2 right ∷ []) second_done

abbrev both_done : Transfer
both_done = move source 2 (take_turn 1 left) [] (take_turn 2 right ∷ []) first_part

run : Reach source 2 (begin 5 2) both_done
unfolding begin spans spans_from workers_of move take_turn
run =
    later
      (later
        (later start (
          next (left ∷ []) [] right 2 refl (omega arith) (omega arith) (omega arith) (omega arith)))
        (next [] (take_turn 2 right ∷ []) left 1 refl (omega arith) (omega arith) (omega arith)
          (omega arith)))
      (next [] (take_turn 2 right ∷ []) (take_turn 1 left) 2 refl (omega arith) (omega arith)
        (omega arith) (omega arith))

in_parallel_whole_example : (both_done.target ≡ codes "abcde") × (both_done.reported ≡ 5)
unfolding begin spans spans_from workers_of move take_turn
in_parallel_whole_example =
    in_parallel_whole source 2 2 both_done (omega arith) (omega arith) run (refl, (refl, tt))

-- One chunk, then a lost connection, through a queue of one item.
abbrev chunk : List Bytes
chunk = codes "ab" ∷ []

abbrev reading : Ahead
reading = begin_ahead chunk (some connection_error)

abbrev tail_items : List Item
tail_items = failed connection_error ∷ (finished ∷ [])

abbrev after_lost : Ahead
after_lost = take_out (failed connection_error) [] (
    offer (failed connection_error) (finished ∷ [])
      (take_out (piece (codes "ab")) [] (offer (piece (codes "ab")) tail_items reading)))

lost_run : AheadReach 1 reading after_lost
unfolding begin_ahead offers offer take_out
lost_run =
    then_step
      (then_step
        (then_step
          (then_step at_start (offering (piece (codes "ab")) tail_items refl (omega arith)))
          (taking (piece (codes "ab")) [] refl refl))
        (offering (failed connection_error) (finished ∷ []) refl (omega arith)))
      (taking (failed connection_error) [] refl refl)

ahead_in_order_example :
    (after_lost.outcome ≡ returned
      → (after_lost.taken ≡ chunk) × (◌≡◌ {A = Option Error} (some connection_error) none))
    × ((e : Error)
        → after_lost.outcome ≡ raised e
        → (after_lost.taken ≡ chunk) × (some connection_error ≡ some e))
ahead_in_order_example = ahead_in_order chunk (some connection_error) 1 after_lost lost_run

ahead_goes_on_example : (b : Ahead) × AheadStep 1 reading b
unfolding begin_ahead
ahead_goes_on_example =
    ahead_goes_on chunk (some connection_error) 1 reading (omega arith) at_start refl

-- Storage whose state is the number of files removed, and whose checksums never agree.
abbrev storage : Storage
storage = record {
  State = ℕ;
  probe = λ u s. (ok (some (5, 7)), s);
  transfer = λ a b way s. (ok (5, codes "0a"), s);
  server_checksum = λ u s. (ok (codes "0b"), s);
  digest_of = λ u s. (ok (codes "0b"), s);
  remove = λ u s. (ok tt, suc s);
}

abbrev order : Order
order = record {
  source = some server;
  target = some server;
  chunk = 4;
  parallel_chunks = 1;
  verify = some true;
  verify_checksums = true;
  overwrite = true;
  dry_run = false;
  remove_source = true;
  resume = false;
}

copy_raised-keeps_example : (copy storage order 0).1 ≡ 0
unfolding copy plan divided spread divisible is_local is_root verified checkable wanted compare_with
    if_possible remove_if ◌>>=◌ pure raise lift try_except is_os_error lower
copy_raised-keeps_example =
    copy_raised-keeps storage (λ (n : ℕ). n ≡ 0) (λ u s j. j) (λ a b w s j. j) (λ u s j. j)
      (λ u s j. j) (λ u s j. tt) order 0 refl refl
