-- ===== src/Stream/Sequence/Numbers.antt =====
-- internal/stream/client_connect.go: every sequence number is accounted for exactly once.
use inari_agent.Prelude.{
  ℕ, suc, ◌+◌, Bool, true, false, ◌&&◌, if◌then◌else◌, List, [], ◌∷◌, ◌++◌, ◌≡◌, refl, sym, ap, ◌∙◌,
  arith, leb, ◌==◌,
}
use inari_agent.Stream.Sequence.{
  Item, stamped, pong, SendState, remove, holds, stamp, enqueue, give_up, answer_ping, pump, Step,
  take_number, put, abandon, reply, transmit, transmit_failed, Reach, here, next, initial,
}

unfoldable pub count : ℕ → List ℕ → ℕ
count n [] = 0
count n (m ∷ ms) = if m == n then suc (count n ms) else count n ms

unfoldable pub count_items : ℕ → List Item → ℕ
count_items n [] = 0
count_items n (stamped m ∷ is) = if m == n then suc (count_items n is) else count_items n is
count_items n (pong ∷ is) = count_items n is

-- How often a number occurs in the whole state.
abbrev pub occurrences : ℕ → SendState → ℕ
occurrences n s = count n s.pending + count_items n s.queue + count_items n s.wire + count n s.lost

count-remove :
    (n m : ℕ) (ns : List ℕ)
    → holds m ns ≡ true
    → count n ns ≡ count n (remove m ns) + (if m == n then 1 else 0)
unfolding count remove holds
count-remove n m [] h = cc
count-remove n m (k ∷ ns) h = ground (arith, count-remove n m ns)

count_items-append :
    (n : ℕ) (is js : List Item) → count_items n (is ++ js) ≡ count_items n is + count_items n js
unfolding count_items
count_items-append n [] js = omega arith
count_items-append n (stamped m ∷ is) js = ground (arith, count_items-append n is js)
count_items-append n (pong ∷ is) js = count_items-append n is js

abbrev pub expected : ℕ → ℕ → ℕ
expected seq n = if leb 1 n && leb n seq then 1 else 0

occurrences-pump :
    (n : ℕ) (sent : Bool) (q : List Item) (s : SendState)
    → s.queue ≡ q
    → occurrences n (pump sent q s) ≡ occurrences n s
unfolding pump count_items count
occurrences-pump n sent [] s e = refl
occurrences-pump n true (stamped m ∷ q) s e = ground (arith, ap (count_items n) e)
occurrences-pump n true (pong ∷ q) s e = ground (arith, ap (count_items n) e)
occurrences-pump n false (stamped m ∷ q) s e = ground (arith, ap (count_items n) e)
occurrences-pump n false (pong ∷ q) s e = ground (arith, ap (count_items n) e)

abbrev Accounted : SendState → Type 0
Accounted s = (n : ℕ) → occurrences n s ≡ expected s.seq n

stamp-Accounted : (s : SendState) → Accounted s → Accounted (stamp s)
unfolding stamp count
stamp-Accounted s h n = ground (arith, h n)

enqueue-Accounted :
    (m : ℕ) (s : SendState) → holds m s.pending ≡ true → Accounted s → Accounted (enqueue m s)
unfolding enqueue count_items
enqueue-Accounted m s o h n =
    ground (arith, h n, count-remove n m s.pending o, count_items-append n s.queue (stamped m ∷ []))

give_up-Accounted :
    (m : ℕ) (s : SendState) → holds m s.pending ≡ true → Accounted s → Accounted (give_up m s)
unfolding give_up count
give_up-Accounted m s o h n = ground (arith, h n, count-remove n m s.pending o)

answer_ping-Accounted : (s : SendState) → Accounted s → Accounted (answer_ping s)
unfolding answer_ping count_items
answer_ping-Accounted s h n = ground (arith, h n, count_items-append n s.queue (pong ∷ []))

seq-pump : (sent : Bool) (q : List Item) (s : SendState) → (pump sent q s).seq ≡ s.seq
unfolding pump
seq-pump sent [] s = refl
seq-pump true (i ∷ q) s = refl
seq-pump false (i ∷ q) s = refl

pump-Accounted : (sent : Bool) (s : SendState) → Accounted s → Accounted (pump sent s.queue s)
pump-Accounted sent s h n =
    occurrences-pump n sent s.queue s refl
    ∙ h n
    ∙ ap (λ (k : ℕ). expected k n) (sym (seq-pump sent s.queue s))

Step-Accounted : {s t : SendState} → Step s t → Accounted s → Accounted t
Step-Accounted {s} take_number h = stamp-Accounted s h
Step-Accounted {s} (put n o r) h = enqueue-Accounted n s o h
Step-Accounted {s} (abandon n o) h = give_up-Accounted n s o h
Step-Accounted {s} reply h = answer_ping-Accounted s h
Step-Accounted {s} transmit h = pump-Accounted true s h
Step-Accounted {s} transmit_failed h = pump-Accounted false s h

Reach-Accounted : {s t : SendState} → Reach s t → Accounted s → Accounted t
Reach-Accounted here h = h
Reach-Accounted (next r st) h = Step-Accounted st (Reach-Accounted r h)

initial-Accounted : Accounted initial
unfolding count count_items
initial-Accounted n = ground arith

-- In every state that the senders, the pong branch and the send pump can reach, in any interleaving,
-- each of the numbers 1 to `seq` occurs exactly once: held by a sender, queued, on the wire, or lost
-- by a cancelled Send or a failed transmission. No other number occurs, and pongs take none.
pub numbers_accounted :
    {s : SendState} (n : ℕ) → Reach initial s → occurrences n s ≡ expected s.seq n
numbers_accounted n r = Reach-Accounted r initial-Accounted n
