-- ===== src/Scheduler/Restored.antt =====
-- What `restore` leaves is sound, whatever state it is handed.
use mathlib.Core.List.Perm
use mathlib.Core.Bool.{Bool-set}
use mathlib.Core.List.{Mem, mem-cons, not-mem-nil, perm_middle, append-nil}
use mathlib.Core.Logic.Or
use distlab.Base.{
  ℕ, suc, ◌≤◌, ◌≡◌, refl, sym, ◌∙◌, inl, inr, true, false, Bool-cases, if_true, if_false, Option,
  none, some, Option-cases, List, [], ◌∷◌, ◌++◌, Perm, Text, units, text_eq, text_eq_refl,
  text_eq_iff, Result, bind-eq-ok, Result-cases, or_fail, ◌≢◌, fail_if, not, ok, throw, type_error,
  arith,
}
use distlab.Contracts.Errors.{invalid_scheduler_state}
use distlab.Contracts.Events.{ScheduledEvent}
use distlab.Values.{Value, obj, arr, get_field, Items, nil, cons, includes, max_safe}
use distlab.Canonical.{Raw, canonical_copy}
use distlab.Scheduler.{Scheduler, event_id}
use distlab.Scheduler.Validate.{Handlers}
use distlab.Scheduler.Restore.{
  Seen, restore_event, restore_events, insert_all, read_pending, read_state, read_raw, sequence_of,
  text_of, replace, restore,
}
use distlab.Scheduler.Heap.{EventHeap, empty_heap}
use distlab.Scheduler.Heap.Order.{at}
use distlab.Scheduler.Heap.Insertion.{IsWellFormed, insert-Leaves}
use distlab.Scheduler.Heap.Removal.{mem-at}
use distlab.Scheduler.Invariant.{IsNumbered-prop, empty-IsWellFormed}
use distlab.Scheduler.Sound.{IsNumbered, IsSound}

-- Events that carry the identities of issued numbers, each its own and none of those in `seen`.
abbrev IsAdmissible : Text → ℕ → List Text → List ScheduledEvent → Type 0
IsAdmissible run next seen [] = Unit
IsAdmissible run next seen (e ∷ es) =
    IsNumbered run next e × (includes seen e.id ≡ false) × IsAdmissible run next (e.id ∷ seen) es

module _ (handlers : Handlers) (now : ℕ) (run : Text) (next : ℕ) where
  restore_event-admits :
      (seen : Seen) (v : Value) (e : ScheduledEvent)
      → restore_event handlers now run next seen v ≡ ok e
      → IsNumbered run next e × (includes seen.ids e.id ≡ false)
  unfolding restore_event
  restore_event-admits seen (obj fs) e h =
      ground (arith, text_eq_iff e.id (event_id run e.sequence))
  restore_event-admits seen _ e h = cc

  restore_events-admits :
      (seen : Seen) (items : Items) (es : List ScheduledEvent)
      → restore_events handlers now run next seen items ≡ ok es
      → IsAdmissible run next seen.ids es
  unfolding restore_events
  restore_events-admits seen nil [] h = tt
  restore_events-admits seen nil (e ∷ es) h = cc
  restore_events-admits seen (cons v items) es h =
      let (e, first, more) = bind-eq-ok (restore_event handlers now run next seen v) _ h in
      let seen' : Seen = record {
        ids = e.id ∷ seen.ids;
        sequences = e.sequence ∷ seen.sequences;
      } in
      let (rest, tail, all) =
        bind-eq-ok (restore_events handlers now run next seen' items) _ more in
      let (numbered, new) = restore_event-admits seen v e first in
      let whole_list : e ∷ rest ≡ es = cc in
      rw (sym whole_list) (numbered, new, restore_events-admits seen' items rest tail)

-- Every pending event has its identity among those.
abbrev IsCovered : List Text → EventHeap → Type 0
IsCovered seen h = (e : ScheduledEvent) → Mem e h.items → includes seen e.id ≡ true

IsCovered-fresh :
    (seen : List Text) (h : EventHeap) (id : Text)
    → IsWellFormed h
    → IsCovered seen h
    → includes seen id ≡ false
    → h.positions id ≡ none
IsCovered-fresh seen h id w covered new = elim (Option-cases (h.positions id)) [
  | inl absent ↦ absent
  | inr (i, taken) ↦
      let (p, named) = w.synced.located id i taken in
      let old = covered (at h.items i) (mem-at h.items i p) in absurd (cc)
]

IsCovered-insert :
    (seen : List Text) (e : ScheduledEvent) (h h' : EventHeap)
    → IsCovered seen h
    → Perm h'.items (e ∷ h.items)
    → IsCovered (e.id ∷ seen) h'
unfolding includes
IsCovered-insert seen e h h' c p x m =
    Or.elim (Bool-set _ _) (mem-cons.0 ((Perm.mem_iff p).0 m))
      (λ same. rw (same, text_eq_refl e.id)) (λ old. ground (arith, c x old))

-- Inserting admissible events one after the other never fails.
insert_all-Leaves :
    (run : Text) (next : ℕ) (seen : List Text) (es : List ScheduledEvent) (h : EventHeap)
    → IsWellFormed h
    → IsCovered seen h
    → IsAdmissible run next seen es
    → (h' : EventHeap) × (insert_all es h ≡ ok h') × IsWellFormed h' × Perm h'.items (es ++ h.items)
unfolding insert_all
insert_all-Leaves run next seen [] h w c a = (h, refl, w, Perm.refl h.items)
insert_all-Leaves run next seen (e ∷ es) h w c (numbered, new, a) =
    let l = insert-Leaves e h w (IsCovered-fresh seen h e.id w c new) in
    let (h', returned, w', p) =
      insert_all-Leaves run next (e.id ∷ seen) es l.heap l.well_formed
        (IsCovered-insert seen e h l.heap c l.perm) a in
    (
      h',
      rw l.returned returned,
      w',
      Perm.trans p (Perm.trans (Perm.append_left es l.perm) (perm_middle es h.items)),
    )

IsAdmissible-IsNumbered :
    (run : Text) (next : ℕ) (seen : List Text) (es : List ScheduledEvent) (e : ScheduledEvent)
    → IsAdmissible run next seen es
    → Mem e es
    → IsNumbered run next e
IsAdmissible-IsNumbered run next seen [] e a m = absurd (not-mem-nil m)
IsAdmissible-IsNumbered run next seen (x ∷ es) e (numbered, _, a) m =
    Or.elim (IsNumbered-prop run next e) (mem-cons.0 m) (λ same. rw same numbered)
      (IsAdmissible-IsNumbered run next (x.id ∷ seen) es e a)

read_pending-admits :
    (handlers : Handlers) (now : ℕ) (run : Text) (next : ℕ) (v : Option Value)
    (events : List ScheduledEvent)
    → read_pending handlers now run next v ≡ ok events
    → IsAdmissible run next [] events
unfolding read_pending
read_pending-admits handlers now run next (some (arr items)) events h =
    restore_events-admits handlers now run next _ items events h
read_pending-admits handlers now run next _ events h = cc

sequence_of-le : (v : Option Value) (n : ℕ) → sequence_of v ≡ ok n → n ≤ max_safe
unfolding sequence_of
sequence_of-le v n h = ground arith

read_state-admits :
    (handlers : Handlers) (now : ℕ) (run : Text) (v : Value) (next : ℕ)
    (events : List ScheduledEvent)
    → read_state handlers now run v ≡ ok (next, events)
    → (next ≤ max_safe) × IsAdmissible run next [] events
unfolding read_state
read_state-admits handlers now run (obj fs) next events h =
    let (owner, _, h₁) = bind-eq-ok (text_of (get_field (units "runId") fs)) _ h in
    let (_, _, h₂) = bind-eq-ok (fail_if (not (text_eq owner run)) invalid_scheduler_state) _ h₁ in
    let (n, safe, h₃) = bind-eq-ok (sequence_of (get_field (units "nextSequence") fs)) _ h₂ in
    let (es, listed, h₄) =
      bind-eq-ok (read_pending handlers now run n (get_field (units "pending") fs)) _ h₃ in
    let same_next : n ≡ next = cc in
    let same_events : es ≡ events = cc in
    (
      rw same_next at (sequence_of-le (get_field (units "nextSequence") fs) n safe),
      rw (same_next, same_events) at
          (read_pending-admits handlers now run n (get_field (units "pending") fs) es listed),
    )
read_state-admits handlers now run _ next events h = cc

-- The heap that the admissible events make, and nothing pending before.
abbrev pub IsReplaced :
    {Log : Type 0} → ℕ → List ScheduledEvent → Scheduler Log → Scheduler Log → Type 0
IsReplaced next events s t =
    IsSound t × Perm t.heap.items events × (t.next ≡ next) × (t.generation ≡ suc s.generation)

module _ {Log : Type 0} (s : Scheduler Log) where
  replace-IsReplaced :
      (next : ℕ) (events : List ScheduledEvent)
      → next ≤ max_safe
      → IsAdmissible s.run_id next [] events
      → ((replace next events s).0 ≡ ok tt) × IsReplaced next events s (replace next events s).1
  unfolding replace
  replace-IsReplaced next events bound a =
      let (h, returned, w, p) =
        insert_all-Leaves s.run_id next [] events empty_heap empty-IsWellFormed
          (λ e m. absurd (not-mem-nil m)) a in
      let all : Perm h.items events = rw (append-nil events) at p in
      rw (returned, replace)
        (
          refl,
          (
            record {
              well_formed = w;
              numbered = λ e m.
                  IsAdmissible-IsNumbered s.run_id next [] events e a ((Perm.mem_iff all).0 m);
              bounded = bound;
            },
            all,
            refl,
            refl,
          ),
        )

  module _ (handlers : Handlers) (now : ℕ) (state : Raw) where
    -- How a call of `restore` can go.
    data Restores (r : Result (Unit {0}) × Scheduler Log) : Type 0 where
      refused : (e : Result (Unit {0})) → e ≢ ok tt → r ≡ (e, s) → Restores r
      replaced :
          (next : ℕ) (events : List ScheduledEvent)
          → s.pristine ≡ true
          → read_raw handlers now s.run_id state ≡ ok (next, events)
          → r.0 ≡ ok tt
          → IsReplaced next events s r.1
          → Restores r

    read_raw-admits :
        (next : ℕ) (events : List ScheduledEvent)
        → read_raw handlers now s.run_id state ≡ ok (next, events)
        → (next ≤ max_safe) × IsAdmissible s.run_id next [] events
    unfolding read_raw
    read_raw-admits next events h =
        let (v, _, read) =
          bind-eq-ok (or_fail (canonical_copy state) invalid_scheduler_state) _ h in
        read_state-admits handlers now s.run_id v next events read

    restore-Restores : Restores (restore handlers now state s)
    unfolding restore
    restore-Restores = elim (Bool-cases s.pristine) [
      | inr used ↦ refused (throw invalid_scheduler_state) (λ q. cc) (if_false _ _ used)
      | inl fresh ↦ elim (Result-cases (read_raw handlers now s.run_id state)) [
        | inl ((next, events), read) ↦
            let (bound, a) = read_raw-admits next events read in
            let (done, all) = replace-IsReplaced next events bound a in
            let e : restore handlers now state s ≡ replace next events s =
              if_true _ _ fresh ∙ rw read in
            rw e (replaced next events fresh read done all)
        | inr (inl (e, bad)) ↦ refused (throw e) (λ q. cc) (if_true _ _ fresh ∙ rw bad)
        | inr (inr bad) ↦ refused type_error (λ q. cc) (if_true _ _ fresh ∙ rw bad)
      ]
    ]

    pub restore-IsSound : IsSound s → IsSound (restore handlers now state s).1
    restore-IsSound v = elim restore-Restores [
      | refused e not_ok gone ↦ rw gone v
      | replaced next events fresh read done all ↦ all.0
    ]

    pub restore_generation : s.generation ≤ (restore handlers now state s).1.generation
    restore_generation = elim restore-Restores [
      | refused e not_ok gone ↦ rw gone (omega arith)
      | replaced next events fresh read done all ↦ omega (arith, all.3)
    ]
