-- ===== src/Brain/RingBuffer/Tests.antt =====
-- A buffer of two signals that three are pushed to.
use domour.Common.{ℕ, ◌≡◌, refl, arith, List, [], ◌∷◌, some, none}
use domour.Brain.RingBuffer.{
  Ring, Op, push_op, pop_op, size_op, done, popped, count, new, push, pop, call, run,
  evict_and_push_channel,
}
use domour.Brain.RingBuffer.Queue.{serve_all}
use domour.Brain.RingBuffer.Inv.{Inv, new-Inv, push-Inv, contents}
use domour.Brain.RingBuffer.Refine.{run-refines, evict_and_push_channel-push}

abbrev calls : List (Op ℕ)
calls = push_op 1 ∷ push_op 2 ∷ push_op 3 ∷ size_op ∷ pop_op ∷ pop_op ∷ pop_op ∷ []

calls-answers :
    run 0 (new 0 2) calls
    ≡ done ∷ done ∷ done ∷ count 2 ∷ popped (some 2) ∷ popped (some 3) ∷ popped none ∷ []
unfolding run call new push pop
calls-answers = refl

run-refines_example : run 0 (new 0 2) calls ≡ serve_all 2 [] calls
run-refines_example = run-refines 0 2 calls

abbrev two : Ring ℕ
two = push 0 (push 0 (new 0 2) 1) 2

two-Inv : Inv two
two-Inv = push-Inv 0 (push 0 (new 0 2) 1) 2 (push-Inv 0 (new 0 2) 1 (new-Inv 0 2))

evict_and_push_channel-push_example :
    evict_and_push_channel 2 (contents 0 two) 3 ≡ contents 0 (push 0 two 3)
unfolding new push
evict_and_push_channel-push_example = evict_and_push_channel-push 0 two 3 two-Inv (omega arith)
