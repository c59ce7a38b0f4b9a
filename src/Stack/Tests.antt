-- ===== src/Stack/Tests.antt =====
-- Theorems about links, lists of nodes, stacks and queues at a concrete list.
use demo_class.Common.{
  ℕ, ◌≡◌, refl, ◌||◌, false, none, some, List, [], ◌∷◌, arith, ◌==◌, if◌then◌else◌,
}
use demo_class.Links.{Links, list_is_empty}
use demo_class.Links.Ring.{Ring, list_is_empty-Ring}
use demo_class.DList.{Memory}
use demo_class.DList.Laws.{Rep, nil, cons}
use demo_class.Stack.{stack_push, stack_pop, queue_push, queue_pop}
use demo_class.Stack.History.{
  Call, push, pop, run_stack, run_queue, lifo, fifo, run_stack-lifo, run_queue-fifo,
}

-- the head at 100, one node at 7
abbrev links : Links
links = record { next = λ p. if p == 100 then 7 else 100; prev = λ p. if p == 100 then 7 else 100 }

abbrev memory : Memory ℕ
memory = record {
  links = links;
  priv = λ p. if p == 7 then some 40 else none;
  live = λ p. p == 100 || p == 7;
}

memory-Rep : Rep memory 100 (7 ∷ []) (40 ∷ [])
memory-Rep = record {
  ring = record { distinct = (refl, (refl, tt)); linked = ((refl, refl), ((refl, refl), tt)) };
  head_live = refl;
  holds = cons refl refl nil;
}

abbrev calls : List (Call ℕ)
calls = push 8 50 ∷ push 9 60 ∷ pop ∷ push 9 70 ∷ pop ∷ pop ∷ pop ∷ pop ∷ []

run_stack-lifo_example : run_stack 100 calls memory ≡ lifo calls (40 ∷ [])
unfolding stack_push stack_pop
run_stack-lifo_example =
    run_stack-lifo calls 100 memory (7 ∷ []) (40 ∷ []) memory-Rep (ground arith)

abbrev waiting : List (Call ℕ)
waiting = push 8 50 ∷ pop ∷ push 7 60 ∷ pop ∷ pop ∷ pop ∷ []

run_queue-fifo_example : run_queue 100 waiting memory ≡ fifo waiting (40 ∷ [])
unfolding queue_push queue_pop
run_queue-fifo_example =
    run_queue-fifo waiting 100 memory (7 ∷ []) (40 ∷ []) memory-Rep (ground arith)

-- list.h at the list 7, 8 behind the head 100
abbrev two : Links
two = record {
  next = λ p. if p == 100 then 7 else if p == 7 then 8 else 100;
  prev = λ p. if p == 100 then 8 else if p == 8 then 7 else 100;
}

two-Ring : Ring two 100 (7 ∷ 8 ∷ [])
two-Ring = record {
  distinct = (refl, (refl, (refl, tt)));
  linked = ((refl, refl), ((refl, refl), ((refl, refl), tt)));
}

list_is_empty-Ring_example : list_is_empty 100 two ≡ false
list_is_empty-Ring_example = list_is_empty-Ring two 100 (7 ∷ 8 ∷ []) two-Ring
