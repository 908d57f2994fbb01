-- ===== src/Relay/Returned.antt =====
-- What a call of internal/relay/broker.go gives back when it returns.
use mathlib.Core.Path.{subst}
use chat_with_cli.Base.{
  sym, ℕ, ◌-◌, Str, none, true, false, ◌≡◌, ◌≢◌, ◌⊎◌, refl, ap, ◌∙◌, arith, nat_eq, str_eq,
}
use chat_with_cli.Base.Map
use chat_with_cli.Relay.{Broker}
use chat_with_cli.Relay.Call.{
  Call, located, prepared, waiting, returned, Event, slot_free, deadline, peer_done, answered,
  new_id, send, tick, call_step, send_request, take_slot, prepare, write_failed, slotted, CallError,
  caller_revoked,
}
use chat_with_cli.Relay.Reply.{IsFinish, fails_with, finish_lem, waiting_finishes}

prepared_finishes :
    (b : Broker) (i : ℕ) (id : Str) (e : Event) (result : CallError ⊎ Str)
    → (call_step b (prepared i id) e).1 ≡ returned result
    → IsFinish b i id (call_step b (prepared i id) e)
unfolding call_step send_request
prepared_finishes b i id (send false size written) result h = fails_with b i id caller_revoked
prepared_finishes b i id (send true size false) result h = fails_with b i id write_failed
prepared_finishes b i id (send true size true) result h = cc
prepared_finishes b i id answered result h = cc
prepared_finishes b i id (tick auth allowed) result h = cc
prepared_finishes b i id peer_done result h = cc
prepared_finishes b i id deadline result h = cc
prepared_finishes b i id slot_free result h = cc
prepared_finishes b i id (new_id x) result h = cc

-- The channel is gone, one slot less is taken, and the channels of other calls are as they were.
pub record Freed (b c : Broker) (i : ℕ) (id : Str) : Type 0 where
  pub channel : Map.get (c.heap i).pending id ≡ none
  pub slots : c.slots ≡ b.slots - 1
  pub others :
      (j : ℕ) (other : Str)
      → (j ≢ i) ⊎ (other ≢ id)
      → Map.get (c.heap j).pending other ≡ Map.get (b.heap j).pending other

IsFinish-Freed :
    (b : Broker) (i : ℕ) (id : Str) (s : Broker × Call) → IsFinish b i id s → Freed b s.0 i id
IsFinish-Freed b i id s f =
    let l = finish_lem f.at i id f.result in
    subst (λ z. Freed b z.0 i id) (sym f.ends)
      (record {
        channel = l.0;
        slots = l.1 ∙ ap (λ n. n - 1) f.slots;
        others = λ j other n. l.2 j other n ∙ ap (λ m. Map.get m other) (f.pending j);
      })

-- What a call gives back, by where it stands: nothing before it has a slot, and its slot and its
-- channel from then on. A call that has a slot and no channel yet does not return.
pub Released : Broker → Broker → Call → Type 0
Released b c (located i) = c ≡ b
Released b c (slotted i) = ⊥
Released b c (prepared i id) = Freed b c i id
Released b c (waiting i id) = Freed b c i id
Released b c (returned result) = c ≡ b

located_keeps :
    (b : Broker) (i : ℕ) (e : Event) (result : CallError ⊎ Str)
    → (call_step b (located i) e).1 ≡ returned result
    → (call_step b (located i) e).0 ≡ b
unfolding call_step take_slot
located_keeps b i deadline result h = refl
located_keeps b i slot_free result h = absurd (ground arith)
located_keeps b i answered result h = refl
located_keeps b i (tick auth allowed) result h = refl
located_keeps b i peer_done result h = refl
located_keeps b i (new_id x) result h = refl
located_keeps b i (send allowed size written) result h = refl

slotted_stays :
    (b : Broker) (i : ℕ) (e : Event) (result : CallError ⊎ Str)
    → (call_step b (slotted i) e).1 ≢ returned result
unfolding call_step prepare
slotted_stays b i deadline result h = cc
slotted_stays b i slot_free result h = cc
slotted_stays b i answered result h = cc
slotted_stays b i (tick auth allowed) result h = cc
slotted_stays b i peer_done result h = cc
slotted_stays b i (new_id x) result h = cc
slotted_stays b i (send allowed size written) result h = cc

returned_keeps : (b : Broker) (x : CallError ⊎ Str) (e : Event) → (call_step b (returned x) e).0 ≡ b
unfolding call_step
returned_keeps b x e = refl

-- However a call returns, with a result or with any of its errors: if it waited for a slot, the
-- broker is as before. If its channel was in pending, the channel is taken out and the slot given
-- back, and the channels of other calls are left. A call cannot return in between.
pub call_returned :
    (b : Broker) (c : Call) (e : Event) (result : CallError ⊎ Str)
    → (call_step b c e).1 ≡ returned result
    → Released b (call_step b c e).0 c
unfolding Released
call_returned b (located i) e result h = located_keeps b i e result h
call_returned b (slotted i) e result h = slotted_stays b i e result h
call_returned b (prepared i id) e result h =
    IsFinish-Freed b i id _ (prepared_finishes b i id e result h)
call_returned b (waiting i id) e result h =
    IsFinish-Freed b i id _ (waiting_finishes b i id e result h)
call_returned b (returned x) e result h = returned_keeps b x e
