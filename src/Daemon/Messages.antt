-- ===== src/Daemon/Messages.antt =====
-- The queue hands the messages over in the order in which they were sent.
use mathlib.Core.List.{append-nil, append_assoc}
use tablet_magic.Base.{
  ℕ, zero, suc, ◌<◌, ◌≡◌, refl, sym, ap, ◌∙◌, arith, List, [], ◌∷◌, ◌++◌, length, All, Option, none,
  some,
}
use tablet_magic.Daemon.State.{Tablet}
use tablet_magic.Daemon.Queue.{send_message, pop_message}

abbrev pub send_all : List (List ℕ) → Tablet → Tablet
send_all [] t = t
send_all (m ∷ ms) t = send_all ms (send_message m t)

abbrev pub also : List ℕ → Option (List (List ℕ) × Tablet) → Option (List (List ℕ) × Tablet)
also m none = none
also m (some (ms, t)) = some (m ∷ ms, t)

-- The answers to n requests for the next message.
unfoldable pub pop_times : ℕ → Tablet → Option (List (List ℕ) × Tablet)
pop_times zero t = some ([], t)
pop_times (suc n) t = elim (pop_message t) [ none ↦ none | some (m, t') ↦ also m (pop_times n t') ]

abbrev IsShort : List ℕ → Type 0
IsShort m = length m < 99

send_all-queue :
    (ms : List (List ℕ)) (t : Tablet) → send_all ms t ≡ record t { queue = t.queue ++ ms }
send_all-queue [] t = ap (λ (q : List (List ℕ)). record t { queue = q }) (sym (append-nil t.queue))
send_all-queue (m ∷ ms) t =
    send_all-queue ms (send_message m t)
    ∙ ap (λ (q : List (List ℕ)). record t { queue = q }) (append_assoc t.queue (m ∷ []) ms)

pop_message-short :
    (m : List ℕ) (rest : List (List ℕ)) (t : Tablet)
    → IsShort m
    → pop_message (record t { queue = m ∷ rest }) ≡ some (m, record t { queue = rest })
unfolding pop_message
pop_message-short m rest t h = ground arith

pop_times-queue :
    (ms : List (List ℕ)) (t : Tablet)
    → All IsShort ms
    → pop_times (length ms) (record t { queue = ms }) ≡ some (ms, record t { queue = [] })
unfolding pop_times
pop_times-queue [] t h = refl
pop_times-queue (m ∷ ms) t h =
    rw (pop_message-short m ms t h.0, pop_times) (ap (also m) (pop_times-queue ms t h.1))

-- Messages of fewer than 99 bytes that are put on an empty queue are answered in the order in which
-- they were sent, one to each request, and the tablet is as before.
pub pop_times-send_all :
    (ms : List (List ℕ)) (t : Tablet)
    → t.queue ≡ []
    → All IsShort ms
    → pop_times (length ms) (send_all ms t) ≡ some (ms, t)
pop_times-send_all ms t empty h =
    ap (pop_times (length ms))
      (send_all-queue ms t ∙ ap (λ (q : List (List ℕ)). record t { queue = q ++ ms }) empty)
    ∙ pop_times-queue ms t h
    ∙ ap (λ (q : List (List ℕ)). some (ms, record t { queue = q })) (sym empty)
