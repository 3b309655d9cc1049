-- ===== src/Session/Supervisor/Invariant.antt =====
-- What holds of a supervised session between two rounds of its loop.
use vk_turn_proxy_go.Base.{
  ℕ, zero, suc, ◌+◌, ◌≡◌, refl, sym, ◌∙◌, Bool, true, false, ◌&&◌, List, [], ◌∷◌, ◌++◌, Option,
  none, some, arith, ◌==◌, if◌then◌else◌, Bool-cases, inl, inr, get_elem?, set, replicate, subst,
  ◌≢◌, get_elem?-set_self, get_elem?-set_ne, lt-length_of_get_elem?, if_intro,
}
use vk_turn_proxy_go.Session.Supervisor.{
  Ingress, WorkerState, Report, session_start, session_failure, transport_failure, active_workers,
  emit, Settings, Supervisor, report,
}
use vk_turn_proxy_go.Session.Supervisor.Counting.{bit, count_ready}
use vk_turn_proxy_go.Session.Supervisor.Budget.{InBudget}

abbrev pub is_some {ℓ} : {A : Type ℓ} → Option A → Bool
is_some none = false
is_some (some a) = true

-- What the loop relies on in an ingress: the workers that it serves, as a map to their channels.
pub record IngressLaws {S : Type 0} (io : Ingress S) : Type 1 where
  pub route : ℕ → S → Option ℕ
  pub IsSound : S → Type 0
  pub set_ready-IsSound : (i c : ℕ) (a : S) → IsSound a → IsSound (io.set_ready i c a)
  pub remove-IsSound : (i : ℕ) (a : S) → IsSound a → IsSound (io.remove i a)
  pub route-set_ready :
      (i c j : ℕ) (a : S)
      → IsSound a
      → route j (io.set_ready i c a) ≡ (if i == j then some c else route j a)
  pub route-remove :
      (i j : ℕ) (a : S) → IsSound a → route j (io.remove i a) ≡ (if i == j then none else route j a)

abbrev ready_of : Option WorkerState → Bool
ready_of none = false
ready_of (some st) = st.ready

abbrev pub ready_at : ℕ → List WorkerState → Bool
ready_at i sts = ready_of (get_elem? sts i)

pub ready_at-set :
    (sts : List WorkerState) (i j : ℕ) (old new : WorkerState)
    → get_elem? sts i ≡ some old
    → ready_at j (set sts i new) ≡ (if i == j then new.ready else ready_at j sts)
ready_at-set sts i j old new h = elim (Bool-cases (i == j)) [
  | inl e ↦
      let p : i ≡ j = ground arith in
      let q : get_elem? (set sts i new) j ≡ some new =
        subst (λ k. get_elem? (set sts i new) k ≡ some new) p
          (get_elem?-set_self sts i new (lt-length_of_get_elem? sts i old h)) in
      rw (e, q)
  | inr e ↦ let p : i ≢ j = ground arith in rw (e, get_elem?-set_ne sts i j new p)
]

pub ready_at-same :
    (sts : List WorkerState) (i j : ℕ) (old new : WorkerState)
    → get_elem? sts i ≡ some old
    → new.ready ≡ old.ready
    → ready_at j (set sts i new) ≡ ready_at j sts
ready_at-same sts i j old new h e = elim (Bool-cases (i == j)) [
  | inl q ↦
      let p : i ≡ j = ground arith in
      let o : get_elem? sts j ≡ some old = subst (λ k. get_elem? sts k ≡ some old) p h in
      ready_at-set sts i j old new h ∙ rw (q, o) e
  | inr q ↦ ready_at-set sts i j old new h ∙ rw q
]

pub ready_at-replicate :
    (n i : ℕ) (st : WorkerState) → st.ready ≡ false → ready_at i (replicate n st) ≡ false
ready_at-replicate zero i st h = refl
ready_at-replicate (suc n) zero st h = h
ready_at-replicate (suc n) (suc i) st h = ready_at-replicate n i st h

-- How often the observer was told that the session started.
abbrev pub starts : List Report → ℕ
starts [] = 0
starts (session_start ∷ rs) = suc (starts rs)
starts (_ ∷ rs) = starts rs

-- The gauge of active workers: the last value given, after `n`.
abbrev pub gauge_after : ℕ → List Report → ℕ
gauge_after n [] = n
gauge_after n (active_workers m ∷ rs) = gauge_after m rs
gauge_after n (_ ∷ rs) = gauge_after n rs

abbrev pub gauge : List Report → ℕ
gauge = gauge_after 0

starts-append : (rs qs : List Report) → starts (rs ++ qs) ≡ starts rs + starts qs
starts-append [] qs = omega arith
starts-append (session_start ∷ rs) qs = omega (arith, starts-append rs qs)
starts-append (session_failure _ _ ∷ rs) qs = starts-append rs qs
starts-append (transport_failure _ ∷ rs) qs = starts-append rs qs
starts-append (active_workers _ ∷ rs) qs = starts-append rs qs
starts-append (emit _ _ _ ∷ rs) qs = starts-append rs qs

gauge_after-append :
    (n : ℕ) (rs qs : List Report) → gauge_after n (rs ++ qs) ≡ gauge_after (gauge_after n rs) qs
gauge_after-append n [] qs = refl
gauge_after-append n (session_start ∷ rs) qs = gauge_after-append n rs qs
gauge_after-append n (session_failure _ _ ∷ rs) qs = gauge_after-append n rs qs
gauge_after-append n (transport_failure _ ∷ rs) qs = gauge_after-append n rs qs
gauge_after-append n (active_workers m ∷ rs) qs = gauge_after-append m rs qs
gauge_after-append n (emit _ _ _ ∷ rs) qs = gauge_after-append n rs qs

module _ {S : Type 0} (cfg : Settings) {io : Ingress S} (laws : IngressLaws io) where
  open laws use {route, IsSound}

  pub record Core (s : Supervisor S) : Type 0 where
    pub budget : InBudget cfg s.states s.scheduled s.launched
    pub counted : s.ready_workers ≡ count_ready s.states
    -- The ingress serves exactly the workers that are ready.
    pub served : (i : ℕ) → is_some (route i s.ingress) ≡ ready_at i s.states
    pub sound : IsSound s.ingress

  pub report-Core : (rs : List Report) (s : Supervisor S) → Core s → Core (report cfg rs s)
  unfolding report
  report-Core rs s c =
      if_intro (Core) cfg.observing (record s { reports = s.reports ++ rs }) s
        (λ o. record { budget = c.budget; counted = c.counted; served = c.served; sound = c.sound })
        (λ o. c)

module _ {S : Type 0} (cfg : Settings) where
  -- What the observer was told, if there is one.
  pub record Told (s : Supervisor S) : Type 0 where
    pub started : starts s.reports ≡ bit (cfg.observing && s.session_ready)
    pub gauged : cfg.observing ≡ true → gauge s.reports ≡ s.ready_workers

  pub starts-report :
      (rs : List Report) (s : Supervisor S)
      → starts (report cfg rs s).reports
        ≡ (if cfg.observing then starts s.reports + starts rs else starts s.reports)
  unfolding report
  starts-report rs s = elim (Bool-cases cfg.observing) [
    | inl o ↦ rw o (starts-append s.reports rs)
    | inr o ↦ rw o
  ]

  pub gauge-report :
      (rs : List Report) (s : Supervisor S)
      → cfg.observing ≡ true
      → gauge (report cfg rs s).reports ≡ gauge_after (gauge s.reports) rs
  unfolding report
  gauge-report rs s o = rw o (gauge_after-append 0 s.reports rs)

  pub session_ready-report :
      (rs : List Report) (s : Supervisor S) → (report cfg rs s).session_ready ≡ s.session_ready
  unfolding report
  session_ready-report rs s = ground arith

  pub ready_workers-report :
      (rs : List Report) (s : Supervisor S) → (report cfg rs s).ready_workers ≡ s.ready_workers
  unfolding report
  ready_workers-report rs s = ground arith

  -- Reports that start no session, and leave the gauge at the number of ready workers.
  pub report-Told :
      (rs : List Report) (s : Supervisor S)
      → starts s.reports ≡ bit (cfg.observing && s.session_ready)
      → starts rs ≡ 0
      → (cfg.observing ≡ true → gauge_after (gauge s.reports) rs ≡ s.ready_workers)
      → Told (report cfg rs s)
  report-Told rs s b z g = record {
    started = ground (arith, starts-report rs s, session_ready-report rs s);
    gauged = λ o. gauge-report rs s o ∙ g o ∙ sym (ready_workers-report rs s);
  }

-- The invariant of the loop.
pub record Inv {S : Type 0} (cfg : Settings) {io : Ingress S} (laws : IngressLaws io)
    (s : Supervisor S) : Type 0 where
  pub core : Core cfg laws s
  pub told : Told cfg s
