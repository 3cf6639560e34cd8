-- ===== src/Verify/Filter.antt =====
-- Where the entries of `getVerificationHistory` come from.
use zkstellar.Prelude.{
  Bool, true, false, ◌&&◌, ◌≡◌, refl, sym, subst, List, [], ◌∷◌, Option, none, some, All,
  All-append, inl, inr, if◌then◌else◌,
}
use zkstellar.Types.{ok, Result-cases, ok_injective}
use zkstellar.Js.{Js, prop, truthy}
use zkstellar.Verify.Errors.{catching}
use zkstellar.Verify.History.{
  ContractEvent, VerificationHistoryEntry, passes, entry_of, entries_of, get_verification_history,
  push_entry, readable, entry_of_body,
}
use mathlib.Core.List.{Mem, mem-cons_self, mem-cons_of_mem, reverse, reverse-cons}

-- An entry shows one of the events, and the filter lets it pass.
pub record ComesFrom (success_filter : Option Bool) (events : List ContractEvent)
    (entry : VerificationHistoryEntry) : Type 0 where
  pub event : ContractEvent
  pub body : Js
  pub event_listed : Mem event events
  pub event_decoded : event.body ≡ ok body
  pub event_shown : entry ≡ entry_of_body event body
  pub event_passes : passes success_filter entry.success ≡ true

kept :
    (success_filter : Option Bool) (event : ContractEvent) (body : Js)
    (entry : VerificationHistoryEntry) (readable_body passing : Bool)
    → passes success_filter (truthy (prop body "success")) ≡ passing
    → (if readable_body && passing then some (entry_of_body event body) else none) ≡ some entry
    → (entry ≡ entry_of_body event body) × (passes success_filter entry.success ≡ true)
kept success_filter event body entry true true p h =
    let e : entry ≡ entry_of_body event body = cc in (e, rw e p)
kept success_filter event body entry true false p h = absurd (cc)
kept success_filter event body entry false passing p h = absurd (cc)

entry_of-ComesFrom :
    (success_filter : Option Bool) (event : ContractEvent) (events : List ContractEvent)
    (entry : VerificationHistoryEntry)
    → entry_of success_filter event ≡ some entry
    → ComesFrom success_filter (event ∷ events) entry
unfolding entry_of
entry_of-ComesFrom success_filter event events entry h = elim (Result-cases event.body) [
  | inl (body, e) ↦
      let (shown, passing) =
        kept success_filter event body entry (readable body)
          (passes success_filter (truthy (prop body "success"))) refl (rw e at h) in
      record {
        event = event;
        body = body;
        event_listed = mem-cons_self;
        event_decoded = e;
        event_shown = shown;
        event_passes = passing;
      }
  | inr (failure, e) ↦ absurd (cc (rw e at h))
]

ComesFrom-cons :
    (success_filter : Option Bool) (event : ContractEvent) (events : List ContractEvent)
    (entries : List VerificationHistoryEntry)
    → All (ComesFrom success_filter events) entries
    → All (ComesFrom success_filter (event ∷ events)) entries
ComesFrom-cons success_filter event events [] h = tt
ComesFrom-cons success_filter event events (entry ∷ entries) (c, h) = (
  record {
    event = c.event;
    body = c.body;
    event_listed = mem-cons_of_mem event c.event_listed;
    event_decoded = c.event_decoded;
    event_shown = c.event_shown;
    event_passes = c.event_passes;
  },
  ComesFrom-cons success_filter event events entries h,
)

push_entry-ComesFrom :
    (success_filter : Option Bool) (events : List ContractEvent)
    (pushed : Option VerificationHistoryEntry) (entries : List VerificationHistoryEntry)
    → ((entry : VerificationHistoryEntry)
        → pushed ≡ some entry
        → ComesFrom success_filter events entry)
    → All (ComesFrom success_filter events) entries
    → All (ComesFrom success_filter events) (push_entry pushed entries)
push_entry-ComesFrom success_filter events none entries h p = p
push_entry-ComesFrom success_filter events (some e) entries h p = (h e refl, p)

entries_of-ComesFrom :
    (success_filter : Option Bool) (events : List ContractEvent)
    → All (ComesFrom success_filter events) (entries_of success_filter events)
unfolding entries_of
entries_of-ComesFrom success_filter [] = tt
entries_of-ComesFrom success_filter (event ∷ events) =
    push_entry-ComesFrom success_filter (event ∷ events) (entry_of success_filter event)
      (entries_of success_filter events) (entry_of-ComesFrom success_filter event events)
      (ComesFrom-cons success_filter event events (entries_of success_filter events)
        (entries_of-ComesFrom success_filter events))

reverse-ComesFrom :
    (success_filter : Option Bool) (events : List ContractEvent)
    (entries : List VerificationHistoryEntry)
    → All (ComesFrom success_filter events) entries
    → All (ComesFrom success_filter events) (reverse entries)
reverse-ComesFrom success_filter events [] h = tt
reverse-ComesFrom success_filter events (e ∷ entries) (p, h) =
    subst (All (ComesFrom success_filter events)) (sym (reverse-cons e entries)) (
      All-append (ComesFrom success_filter events) (reverse entries) (e ∷ [])
        (reverse-ComesFrom success_filter events entries h) (p, tt))

-- Every entry that getVerificationHistory returns shows an event that getEvents answered and that could
-- be decoded, with its values, and has the success value that the filter asks for, if there is a filter.
pub get_verification_history-ComesFrom :
    (events : List ContractEvent) (success_filter : Option Bool)
    (entries : List VerificationHistoryEntry)
    → get_verification_history (ok events) success_filter ≡ ok entries
    → All (ComesFrom success_filter events) entries
unfolding get_verification_history catching
get_verification_history-ComesFrom events success_filter entries h =
    subst (All (ComesFrom success_filter events)) (ok_injective h) (
      reverse-ComesFrom success_filter events (entries_of success_filter events)
        (entries_of-ComesFrom success_filter events))
