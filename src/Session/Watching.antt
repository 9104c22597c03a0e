-- ===== src/Session/Watching.antt =====
-- While an abort drains: its operation stays closed, and what works for it was there when it began.
use kvserve.Common.{
  ℕ, ◌<◌, ◌≡◌, inl, inr, refl, sym, ap, subst, ◌∙◌, Bool, true, false, not, ◌&&◌, ◌||◌, Bool-cases,
  Option-cases, List, [], ◌∷◌, str_eq, ◌==◌, arith,
}
use kvserve.Session.State.{
  SendState, OperationKey, SessionKey, Task, waiting, opening, queued, encoding, draining, aborting,
  ended, Service, same_operation, find, is_some, set_task, add_task,
}
use kvserve.Session.Open.{
  set_send_state, new_state, open_begins, open_fails, give_up, claim, open_proceeds,
}
use kvserve.Session.Frames.{
  Calm, calm, Calm-trans, if-Calm, clean_up-Calm, claim-Calm, new_state-Calm, finish_send_meta-Calm,
}
use kvserve.Session.Closing.{
  is_shut, same_operation_sound, finish_send_meta-closed, clean_up-closed,
}

-- The task has a job of this operation at the engine that reads or opens blocks.
abbrev pub is_working : OperationKey → Task → Bool
is_working op (opening key op' j created) = same_operation op' op
is_working op (encoding key op' i slot) = same_operation op' op
is_working op other = false

abbrev pub is_listed : ℕ → List ℕ → Bool
is_listed u [] = false
is_listed u (t ∷ ts) = (t == u) || is_listed u ts

-- A job of this operation whose wait is over is still at the engine.
abbrev pub is_left : OperationKey → List OperationKey → Bool
is_left op [] = false
is_left op (other ∷ rest) = same_operation other op || is_left op rest

pub record IsWatched (op : OperationKey) (bound : ℕ) (pending : List ℕ) (s : Service) : Type 0 where
  pub shut : is_shut op bound s.closed ≡ true
  pub clear : is_left op s.left ≡ false
  pub listed :
      (u : ℕ) → u < s.task_count → is_working op (s.tasks u) ≡ true → is_listed u pending ≡ true

module _ (op : OperationKey) (bound : ℕ) (pending : List ℕ) where
  pub Calm-IsWatched :
      (s s' : Service)
      → Calm s s'
      → is_shut op bound s'.closed ≡ true
      → IsWatched op bound pending s
      → IsWatched op bound pending s'
  Calm-IsWatched s s' c shut w = record {
    shut = shut;
    clear = ap (is_left op) c.left ∙ w.clear;
    listed = λ u h g.
        w.listed u (omega (arith, h, c.task_count))
          (ap (λ (f : ℕ → Task). is_working op (f u)) (sym c.tasks) ∙ g);
  }

  pub same-IsWatched :
      (s s' : Service)
      → Calm s s'
      → s'.closed ≡ s.closed
      → IsWatched op bound pending s
      → IsWatched op bound pending s'
  same-IsWatched s s' c e w = Calm-IsWatched s s' c (ap (is_shut op bound) e ∙ w.shut) w

  pub set_task-IsWatched :
      (t : ℕ) (v : Task) (s : Service)
      → (is_working op v ≡ true → is_working op (s.tasks t) ≡ true)
      → IsWatched op bound pending s
      → IsWatched op bound pending (set_task t v s)
  unfolding set_task
  set_task-IsWatched t v s f w = record {
    shut = w.shut;
    clear = w.clear;
    listed = λ u h g. elim (Bool-cases (u == t)) [
      | inl e ↦ w.listed u h (
          let same : u ≡ t = ground (arith, e) in
          ap (λ x. is_working op (s.tasks x)) same ∙ f (ground (arith, g, e)))
      | inr e ↦ w.listed u h (ground (arith, g, e))
    ];
  }

  pub add_task-IsWatched :
      (v : Task) (s : Service)
      → is_working op v ≡ false
      → IsWatched op bound pending s
      → IsWatched op bound pending (add_task v s)
  unfolding add_task
  add_task-IsWatched v s f w = record {
    shut = w.shut;
    clear = w.clear;
    listed = λ u h g. elim (Bool-cases (u == s.task_count)) [
      | inl e ↦ absurd (ground (arith, g, e, f))
      | inr e ↦ w.listed u (ground (arith, h, e)) (ground (arith, g, e))
    ];
  }

  -- A job for an operation that is not in `_closed`.
  pub open-IsWorking :
      (op' : OperationKey) (s : Service)
      → is_some (find same_operation op' s.closed) ≡ false
      → IsWatched op bound pending s
      → same_operation op' op ≡ true
      → ⊥
  open-IsWorking op' s e w h =
      let none_yet : is_some (find same_operation op s.closed) ≡ false =
        subst (λ o. is_some (find same_operation o s.closed) ≡ false)
          (same_operation_sound op' op h) e in
      absurd (ground (arith, w.shut, none_yet))

  pub open_fails-IsWatched :
      (t j : ℕ) (created claimed : Bool) (s : Service)
      → IsWatched op bound pending s
      → IsWatched op bound pending (open_fails t j created claimed s)
  unfolding open_fails
  open_fails-IsWatched t j created claimed s w =
      set_task-IsWatched t ended _ (λ h. absurd (ground (arith, h)))
        (same-IsWatched s _
          (Calm-trans s _ _ (if-Calm claimed s _ _ (finish_send_meta-Calm j s) (calm s))
            (clean_up-Calm j created _))
          (clean_up-closed j created _ ∙ ground (arith, finish_send_meta-closed j s)) w)

  pub open_begins-IsWatched :
      (key : SessionKey) (op' : OperationKey) (s : Service)
      → IsWatched op bound pending s
      → IsWatched op bound pending (open_begins key op' s)
  unfolding open_begins new_state
  open_begins-IsWatched key op' s w =
      elim (Option-cases (find str_eq (OperationKey.transfer_id op') s.send_meta)) [
        | inl e ↦
            rw e (add_task-IsWatched _ _ refl (same-IsWatched s _ (new_state-Calm _ _ s) refl w))
        | inr (j, e) ↦ rw e (add_task-IsWatched _ s refl w)
      ]

  pub give_up-IsWatched :
      (late : Bool) (t : ℕ) (s : Service)
      → IsWatched op bound pending s
      → IsWatched op bound pending (give_up late t s)
  unfolding give_up
  give_up-IsWatched late t s w = gave_up_watched (s.tasks t) refl
    where
      gave_up_watched : (v : Task) → s.tasks t ≡ v → IsWatched op bound pending (give_up late t s)
      gave_up_watched (waiting key op' j created) e =
          elim (Bool-cases (
            not (SendState.ready (s.send_states j))
            && (is_some (find same_operation op' s.closed) || late))) [
              | inr r ↦ rw (e, r) w
              | inl r ↦ rw (e, r) (open_fails-IsWatched t j created false s w)
            ]
      gave_up_watched (opening key op' j created) e = rw e w
      gave_up_watched (queued key op' i) e = rw e w
      gave_up_watched (encoding key op' i slot) e = rw e w
      gave_up_watched (draining key op' i slot) e = rw e w
      gave_up_watched (aborting op' session others) e = rw e w
      gave_up_watched ended e = rw e w

  claim-IsWatched :
      (targets j : ℕ) (s : Service)
      → IsWatched op bound pending s
      → IsWatched op bound pending (claim targets j s)
  unfolding claim set_send_state
  claim-IsWatched targets j s w = same-IsWatched s _ (claim-Calm targets j s) refl w

  pub open_proceeds-IsWatched :
      (targets t : ℕ) (s : Service)
      → IsWatched op bound pending s
      → IsWatched op bound pending (open_proceeds targets t s)
  unfolding open_proceeds
  open_proceeds-IsWatched targets t s w = proceeded_watched (s.tasks t) refl
    where
      proceeded_watched :
          (v : Task) → s.tasks t ≡ v → IsWatched op bound pending (open_proceeds targets t s)
      proceeded_watched (waiting key op' j created) e =
          elim (Bool-cases (SendState.ready (s.send_states j))) [
            | inr r ↦ rw (e, r) w
            | inl r ↦ elim (Bool-cases (is_some (find same_operation op' s.closed))) [
              | inl c ↦
                  rw (e, r, c)
                    (open_fails-IsWatched t j created true _ (claim-IsWatched targets j s w))
              | inr c ↦
                  rw (e, r, c)
                    (set_task-IsWatched t _ _ (λ h. absurd (open-IsWorking op' s c w h))
                      (claim-IsWatched targets j s w))
            ]
          ]
      proceeded_watched (opening key op' j created) e = rw e w
      proceeded_watched (queued key op' i) e = rw e w
      proceeded_watched (encoding key op' i slot) e = rw e w
      proceeded_watched (draining key op' i slot) e = rw e w
      proceeded_watched (aborting op' session others) e = rw e w
      proceeded_watched ended e = rw e w
