-- ===== src/Verifier/Ready.antt =====
-- A deployed verifier stays initialised, and refuses everything while it is paused.
use zkstellar.Prelude.{
  ℕ, ◌<◌, ◌≡◌, refl, sym, subst, Bool, true, false, [], Option, none, some, length, arith,
  if◌then◌else◌, Bool-cases, ◌==◌, ==_iff, not, inl, inr, ltb, ltb→lt, ◌&&◌, both→left, both→right,
  Option-cases,
}
use zkstellar.Contract.{Address, Auth, Bytes, Host, VerifyingKey}
use zkstellar.Verifier.{
  Limits, Error, fails, returns, Verifier, constructed, as_admin, set_limits, update_vk,
  set_allowlist_mode, add_to_allowlist, remove_from_allowlist, propose_admin, accept_admin, upgrade,
  set_paused,
}
use zkstellar.Verifier.Settings.{Step-settings}
use zkstellar.Verifier.Steps.{
  Change, limiting, keying, listing, adding, removing, proposing, accepting, upgrading, pausing,
  Reach, here, next,
}

abbrev pub HasAdmin : Option Address → Type 0
HasAdmin none = ⊥
HasAdmin (some admin) = Unit

abbrev pub HasWindow : Option Limits → Type 0
HasWindow none = ⊥
HasWindow (some limits) = 0 < limits.window_size

abbrev pub HasKey : Option VerifyingKey → Type 0
HasKey none = ⊥
HasKey (some vk) = length vk.ic ≡ 2

-- There is an admin, a window that is not empty, and a key for one public input.
abbrev pub IsReady : Verifier → Type 0
IsReady r = HasAdmin r.admin × HasWindow r.limits × HasKey r.vk

as_admin-IsReady :
    (auth : Auth) (r changed r' : Verifier)
    → IsReady changed
    → as_admin auth r changed ≡ some (returns r')
    → IsReady r'
as_admin-IsReady auth r changed r' ready h =
    let same : r' ≡ changed = ground arith in subst IsReady (sym same) ready

-- An update behind a test of its argument.
guarded-IsReady :
    (refuse : Bool) (error : Error) (auth : Auth) (r changed r' : Verifier)
    → (refuse ≡ false → IsReady changed)
    → (if refuse then some (fails error) else as_admin auth r changed) ≡ some (returns r')
    → IsReady r'
guarded-IsReady true error auth r changed r' ready h = cc
guarded-IsReady false error auth r changed r' ready h =
    as_admin-IsReady auth r changed r' (ready refl) h

accept_admin-eq-returns :
    (auth : Auth) (r r' : Verifier)
    → accept_admin auth r ≡ some (returns r')
    → (pending : Address) × (r' ≡ record r { admin = some pending; pending_admin = none })
unfolding accept_admin
accept_admin-eq-returns auth r r' h = elim (Option-cases r.pending_admin) [
  | inl nobody ↦ absurd (let h' = rw nobody at h in cc)
  | inr (pending, proposed) ↦ (pending, let h' = rw proposed at h in ground arith)
]

Change-IsReady : (May : Auth → Type 0) {r r' : Verifier} → Change May r r' → IsReady r → IsReady r'
unfolding set_limits update_vk set_allowlist_mode add_to_allowlist remove_from_allowlist
    propose_admin accept_admin upgrade set_paused
Change-IsReady May (limiting auth max_calls window_size {r} {r'} m h) (a, w, k) =
    guarded-IsReady (window_size == 0) _ auth r _ r' (λ positive. (a, ground arith, k)) h
Change-IsReady May (keying auth vk {r} {r'} m h) (a, w, k) =
    guarded-IsReady (not (length vk.ic == 2)) _ auth r _ r' (λ two. (a, w, ground arith)) h
Change-IsReady May (listing auth enabled {r} {r'} m h) ready = as_admin-IsReady auth r _ r' ready h
Change-IsReady May (adding auth addr {r} {r'} m h) ready = as_admin-IsReady auth r _ r' ready h
Change-IsReady May (removing auth addr {r} {r'} m h) ready = as_admin-IsReady auth r _ r' ready h
Change-IsReady May (proposing auth new_admin {r} {r'} m h) ready =
    as_admin-IsReady auth r _ r' ready h
Change-IsReady May (accepting auth {r} {r'} m h) (a, w, k) =
    let (pending, same) = accept_admin-eq-returns auth r r' h in subst IsReady (sym same) (tt, w, k)
Change-IsReady May (upgrading auth wasm {r} {r'} m h) ready = as_admin-IsReady auth r _ r' ready h
Change-IsReady May (pausing auth paused {r} {r'} m h) ready = as_admin-IsReady auth r _ r' ready h

constructed-IsReady :
    (wasm : Bytes) (admin : Address) (max_calls window_size : ℕ) (vk : VerifyingKey) (r : Verifier)
    → constructed wasm admin max_calls window_size vk ≡ some r
    → IsReady r
unfolding constructed
constructed-IsReady wasm admin max_calls window_size vk r h =
    elim (Bool-cases (ltb 0 window_size && length vk.ic == 2)) [
      | inr bad ↦ absurd (let h' = rw bad at h in cc)
      | inl good ↦
          let h' = rw good at h in
          let same : r ≡ record {
            admin = some admin;
            pending_admin = none;
            limits = some (record { max_calls = max_calls; window_size = window_size });
            vk = some vk;
            call_count = λ caller window. none;
            allowlist_enabled = none;
            allowlist = λ address. none;
            verification_count = λ commitment. none;
            paused = none;
            wasm_hash = wasm;
            events = [];
          } =
            ground arith in
          subst IsReady (sym same) (
            tt,
            ltb→lt 0 window_size (both→left _ _ good),
            (==_iff _ _).0 (both→right (ltb 0 window_size) _ good),
          )
    ]

module _ (host : Host) (May : Auth → Type 0) where
  -- From its construction on, after any calls by anyone, up to an upgrade that replaces its executable by
  -- another, the verifier has an admin, limits with a window that is not empty, and a key with two points
  -- for its public inputs.
  pub constructed_stays-IsReady :
      (wasm : Bytes) (admin : Address) (max_calls window_size : ℕ) (vk : VerifyingKey)
      (r s : Verifier)
      → constructed wasm admin max_calls window_size vk ≡ some r
      → Reach host May r s
      → IsReady s
  constructed_stays-IsReady wasm admin max_calls window_size vk r s h steps = all steps
    where
      all : {s : Verifier} → Reach host May r s → IsReady s
      all here = constructed-IsReady wasm admin max_calls window_size vk r h
      all (next {s} {t} steps code step) = elim (Step-settings host May step) [
        | inl change ↦ Change-IsReady May change (all steps)
        | inr same ↦ subst IsReady (sym same) (all steps)
      ]
