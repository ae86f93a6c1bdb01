-- ===== src/Heap/Tests.antt =====
-- solver/src/indexed_min_heap.hpp on keys that are numbers, with six ids.
use opt_solver.Base.{
  ℕ, ◌≡◌, refl, true, false, List, [], ◌∷◌, ltb, ◌==◌, if◌then◌else◌, Option, some, none, arith,
}
use opt_solver.Base.Ints.{pos, negsuc}
use opt_solver.Heap.{
  Entry, Heap, Keys, reset, contains, place, clear_places, clear, before, top, up_loop, sift_up,
  best_of, down_loop, sift_down, push_at, push_or_decrease, refill, pop,
}
use opt_solver.Heap.Rank.{IsRanked}
use opt_solver.Heap.Slots.{lookup}
use opt_solver.Heap.Push.{IsHeap, IsHeap-reset, IsUpdated, push_or_decrease-IsUpdated}
use opt_solver.Heap.Pop.{pop-IsRemoved}
use opt_solver.Heap.Top.{top_least}
use opt_solver.Heap.Queue.{Event, pushed, popped, Promise, Call, Run, stop, next, calls-refine}

abbrev numbers : Keys ℕ
numbers = record { less = ltb; equal = λ a b. a == b; outside = record { key = 0; id = 0 } }

numbers-IsRanked : IsRanked numbers (λ k. k)
numbers-IsRanked = record { less = λ a b. refl; equal = λ a b. refl }

abbrev start : Heap ℕ
start = reset 6

abbrev one : Heap ℕ
one = push_or_decrease numbers start 4 9

abbrev two : Heap ℕ
two = push_or_decrease numbers one 2 7

-- The key of id 4 goes down past that of id 2.
abbrev three : Heap ℕ
three = push_or_decrease numbers two 4 5

abbrev four : Heap ℕ
four = record {
  entries = record { key = 7; id = 2 } ∷ [];
  places = negsuc 0 ∷ negsuc 0 ∷ pos 0 ∷ negsuc 0 ∷ negsuc 0 ∷ negsuc 0 ∷ [];
}

abbrev lowest : Entry ℕ
lowest = record { key = 5; id = 4 }

start-IsHeap : IsHeap numbers (λ k. k) 6 start
start-IsHeap = IsHeap-reset numbers (λ k. k) 6

push_start : (old : ℕ) → lookup numbers start 4 ≡ some old → ltb old 9 ≡ false
unfolding reset lookup
push_start old e = absurd (ground arith)

push_one : (old : ℕ) → lookup numbers one 2 ≡ some old → ltb old 7 ≡ false
unfolding reset lookup push_or_decrease push_at sift_up up_loop place before
push_one old e = absurd (ground arith)

push_two : (old : ℕ) → lookup numbers two 4 ≡ some old → ltb old 5 ≡ false
unfolding reset lookup push_or_decrease push_at sift_up up_loop place before
push_two old e = ground arith

top-three : top numbers three ≡ some lowest
unfolding top reset push_or_decrease push_at sift_up up_loop place before
top-three = refl

pop-three : pop numbers three ≡ some four
unfolding pop refill sift_down down_loop best_of reset push_or_decrease push_at sift_up up_loop
    place before
pop-three = refl

-- Ties of keys go to the smaller id.
abbrev tied : Heap ℕ
tied =
    push_or_decrease numbers (push_or_decrease numbers (push_or_decrease numbers start 5 3) 1 3) 3 3

top-tied : top numbers tied ≡ some (record { key = 3; id = 1 })
unfolding top reset push_or_decrease push_at sift_up up_loop place before
top-tied = refl

contains-tied : contains tied 3 ≡ true
unfolding contains reset push_or_decrease push_at sift_up up_loop place before
contains-tied = refl

clear-tied : clear tied ≡ start
unfolding clear clear_places reset push_or_decrease push_at sift_up up_loop place before
clear-tied = refl

abbrev events : List (Event ℕ)
events = pushed 4 9 ∷ pushed 2 7 ∷ pushed 4 5 ∷ popped lowest ∷ []

the_run : Run numbers (Call numbers 6) start events four
the_run = next (Call.push 4 9 (omega arith) push_start) (
    next (Call.push 2 7 (omega arith) push_one) (
      next (Call.push 4 5 (omega arith) push_two)
        (next (Call.take lowest top-three pop-three) stop)))

one-IsHeap : IsHeap numbers (λ k. k) 6 one
one-IsHeap =
    (push_or_decrease-IsUpdated numbers (λ k. k) 6 numbers-IsRanked start-IsHeap 4 (omega arith) 9
      push_start).0

two-IsHeap : IsHeap numbers (λ k. k) 6 two
two-IsHeap =
    (push_or_decrease-IsUpdated numbers (λ k. k) 6 numbers-IsRanked one-IsHeap 2 (omega arith) 7
      push_one).0

three-IsHeap : IsHeap numbers (λ k. k) 6 three
three-IsHeap =
    (push_or_decrease-IsUpdated numbers (λ k. k) 6 numbers-IsRanked two-IsHeap 4 (omega arith) 5
      push_two).0

push_three : (old : ℕ) → lookup numbers three 4 ≡ some old → ltb old 1 ≡ false
unfolding reset lookup push_or_decrease push_at sift_up up_loop place before
push_three old e = ground arith

push_or_decrease-IsUpdated_example :
    IsUpdated numbers
      (λ k. k)
      6
      numbers-IsRanked
      three-IsHeap
      4
      (omega arith)
      1
      (push_or_decrease numbers three 4 1)
push_or_decrease-IsUpdated_example =
    push_or_decrease-IsUpdated numbers (λ k. k) 6 numbers-IsRanked three-IsHeap 4 (omega arith) 1
      push_three

lookup-three : lookup numbers three 2 ≡ some 7
unfolding reset lookup push_or_decrease push_at sift_up up_loop place before
lookup-three = refl

top_least_example :
    (t : Entry ℕ) × (top numbers three ≡ some t)
    × (lookup numbers three t.id ≡ some t.key)
    × (before numbers (record { key = 7; id = 2 }) t ≡ false)
top_least_example = top_least numbers (λ k. k) 6 numbers-IsRanked three-IsHeap 2 7 lookup-three

pop-IsRemoved_example :
    (r : Heap ℕ) × (pop numbers three ≡ some r)
    × IsHeap numbers (λ k. k) 6 r
    × ((i : ℕ) → lookup numbers r i ≡ (if i == 4 then none else lookup numbers three i))
pop-IsRemoved_example =
    pop-IsRemoved numbers (λ k. k) 6 numbers-IsRanked three-IsHeap lowest top-three

calls-refine_example :
    IsHeap numbers (λ k. k) 6 four
    × Run numbers (Promise numbers 6) (lookup numbers start) events (lookup numbers four)
calls-refine_example =
    calls-refine numbers (λ k. k) numbers-IsRanked 6 start four events start-IsHeap the_run

abbrev single : ℕ → Option ℕ
single i = if i == 4 then some 5 else none

abbrev emptied : ℕ → Option ℕ
emptied i = if i == 4 then none else single i

single_pop : Promise numbers 6 single (popped lowest) emptied
unfolding before
single_pop = Promise.take lowest refl (λ i key e. ground arith)
