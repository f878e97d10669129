-- ===== src/Slack/Task/Polled.antt =====
-- handler.go: what a task posts to its thread, and that its polling ends.
use sl_open_bark.Common.{
  ℕ, zero, suc, ◌+◌, ◌*◌, ◌≤◌, String, true, List, [], ◌∷◌, ◌++◌, map, Option, none, some, ltb,
  ◌==◌, string_eq, contains, ltb→lt, ◌≡◌, ◌≢◌, ◌⊎◌, inl, inr, refl, ap, sym, ◌∙◌, arith, eq_of_==,
  if_elim,
}
use sl_open_bark.Common.Result.{Result, ok, err}
use sl_open_bark.Common.Text.{trim_space}
use mathlib.Core.List.{append_assoc, append-nil, map-append}
use sl_open_bark.Assembly.{Bytes}
use sl_open_bark.Slack.Client.{Pending, Snapshot}
use sl_open_bark.Slack.Handler.{Handler, Launch, last_error}
use sl_open_bark.Slack.Task.Watched.{
  Clocked, Answers, watched, watched-Clocked, with_answer, pendings, distinct,
}
use sl_open_bark.Slack.Task.{
  World, Message, Run, post, acknowledgement, not_started, card, done_message, failed_message,
  timed_out, show_card, conclude, look, poll, start, submit_body, run_task, acknowledge, output_of,
}

module _ (W₀ : World) (utf8 : String → Bytes) (h : Handler) (l : Launch) where
  abbrev W : World
  W = watched W₀

  -- The last message, by the answers: the first that says that the task is done or that it failed is
  -- the last answer, and the message is the output or the last error; without one, the time is up.
  abbrev pub Final : Type 0 → Answers → Message → Type 0
  Final late [] m = (m ≡ timed_out W utf8 h l) × late
  Final late (err e ∷ rest) m = Final late rest m
  Final late (ok snap ∷ rest) m =
      ((snap.status ≡ "done")
        × (rest ≡ [])
        × (m ≡ done_message W utf8 h l (output_of W utf8 h l snap.result)))
      ⊎ ((snap.status ≡ "error") × (rest ≡ []) × (m ≡ failed_message W utf8 h l (last_error snap)))
      ⊎ ((snap.status ≢ "done") × (snap.status ≢ "error") × Final late rest m)

  -- One card for each approval that the answers name, and then one last message. `heads` are answers
  -- that came before.
  pub record Ending (task_id : String) (deadline : ℕ) (heads : Answers) (shown : List String)
      (before after : Run W) : Type 0 where
    pub answers : Answers
    pub final : Message
    pub came : after.world.1 ≡ before.world.1 ++ answers
    pub is_final : Final (deadline ≤ W.now after.world) (heads ++ answers) final
    pub appended :
        after.posted
        ≡ before.posted
          ++ (map (card W utf8 h l task_id) (distinct shown (pendings answers)) ++ final ∷ [])

  module _ (task_id : String) (deadline : ℕ) where
    finished :
        (heads : Answers) (m : Message) (shown : List String) (s : Run W)
        → Final (deadline ≤ W.now (post W m s).world) (heads ++ []) m
        → Ending task_id deadline heads shown s (post W m s)
    unfolding post
    finished heads m shown s f = record {
      answers = [];
      final = m;
      came = sym (append-nil s.world.1);
      is_final = f;
      appended = refl;
    }

    -- An answer that shows the cards of `new`.
    after_answer :
        (r : Result String Snapshot) (new : List Pending) (shown shown' : List String)
        (s s' after : Run W)
        → s'.world.1 ≡ s.world.1 ++ r ∷ []
        → s'.posted ≡ s.posted ++ map (card W utf8 h l task_id) new
        → ((rest : List Pending)
            → distinct shown (with_answer r rest) ≡ new ++ distinct shown' rest)
        → Ending task_id deadline (r ∷ []) shown' s' after
        → Ending task_id deadline [] shown s after
    after_answer r new shown shown' s s' after log cards names e =
        let show = map (card W utf8 h l task_id) in
        let later = distinct shown' (pendings e.answers) in
        record {
          answers = r ∷ e.answers;
          final = e.final;
          came = e.came ∙ ap (λ x. x ++ e.answers) log ∙ append_assoc s.world.1 (r ∷ []) e.answers;
          is_final = e.is_final;
          appended =
              e.appended
              ∙ ap (λ x. x ++ (show later ++ e.final ∷ [])) cards
              ∙ append_assoc s.posted (show new) (show later ++ e.final ∷ [])
              ∙ ap (λ x. s.posted ++ x)
                  (sym (append_assoc (show new) (show later) (e.final ∷ []))
                    ∙ ap (λ x. x ++ e.final ∷ [])
                        (sym (map-append (card W utf8 h l task_id) new later)
                          ∙ ap show (sym (names (pendings e.answers)))));
        }

    module _ (clock : Clocked W) (again : List String → Run W → Run W) (base : ℕ)
        (ih : (shown : List String) (s : Run W)
          → base + h.poll_every ≤ W.now s.world
          → Ending task_id deadline [] shown s (again shown s)) where
      asleep :
          (heads : Answers) (shown : List String) (s : Run W)
          → ((late : Type 0) (rest : Answers) (m : Message)
              → Final late rest m
              → Final late (heads ++ rest) m)
          → base ≤ W.now s.world
          → Ending task_id deadline heads shown s
              (again shown (record s { world = W.sleep h.poll_every s.world }))
      asleep heads shown s goes_on late =
          let e =
            ih shown (record s { world = W.sleep h.poll_every s.world })
              (omega (arith, clock.slept h.poll_every s.world)) in
          record {
            answers = e.answers;
            final = e.final;
            came = e.came;
            is_final = goes_on _ e.answers e.final e.is_final;
            appended = e.appended;
          }

      conclude-Ending :
          (snap : Snapshot) (shown : List String) (s : Run W)
          → base ≤ W.now s.world
          → Ending task_id deadline
              (ok snap ∷ [])
              shown
              s
              (conclude W utf8 h l again snap (shown, s))
      conclude-Ending snap shown s late =
          let P = Ending task_id deadline (ok snap ∷ []) shown s in
          if_elim P (snap.status == "done") _ _
            (λ done.
              finished (ok snap ∷ []) (done_message W utf8 h l (output_of W utf8 h l snap.result))
                shown s (inl (eq_of_== snap.status "done" done, refl, refl)))
            (λ not_done.
              if_elim P (snap.status == "error") _ _
                (λ failed.
                  finished (ok snap ∷ []) (failed_message W utf8 h l (last_error snap)) shown s
                    (inr (inl (eq_of_== snap.status "error" failed, refl, refl))))
                (λ not_failed.
                  asleep (ok snap ∷ []) shown s
                    (λ t rest m f. inr (inr (ground arith, ground arith, f))) late))

      sent-le : (m : Message) (s : Run W) → base ≤ W.now s.world → base ≤ W.now (post W m s).world
      unfolding post
      sent-le m s late = omega (arith, clock.sent m s.world)

      carded :
          (snap : Snapshot) (pending : Option Pending) (shown : List String) (before s : Run W)
          → snap.pending ≡ pending
          → s.world.1 ≡ before.world.1 ++ ok snap ∷ []
          → s.posted ≡ before.posted
          → base ≤ W.now s.world
          → Ending task_id deadline [] shown before
              (conclude W utf8 h l again snap (show_card W utf8 h l task_id pending shown s))
      unfolding post
      carded snap none shown before s e log posted late =
          after_answer (ok snap) [] shown shown before s _ log
            (posted ∙ sym (append-nil before.posted)) (λ rest. rw e refl)
            (conclude-Ending snap shown s late)
      carded snap (some p) shown before s e log posted late =
          let c = card W utf8 h l task_id p in
          if_elim
            (λ (t : List String × Run W).
              Ending task_id deadline [] shown before (conclude W utf8 h l again snap t))
            (contains shown p.approval_id) (shown, s) (p.approval_id ∷ shown, post W c s)
            (λ old.
              after_answer (ok snap) [] shown shown before s _ log
                (posted ∙ sym (append-nil before.posted)) (λ rest. rw (e, old) refl)
                (conclude-Ending snap shown s late))
            (λ new.
              after_answer (ok snap) (p ∷ []) shown (p.approval_id ∷ shown) before (post W c s) _
                log (ap (λ x. x ++ c ∷ []) posted) (λ rest. rw (e, new) refl)
                (conclude-Ending snap (p.approval_id ∷ shown) (post W c s) (sent-le c s late)))

      look-Ending :
          (shown : List String) (s : Run W) (r : Result String Snapshot × W.State)
          → r.1.1 ≡ s.world.1 ++ r.0 ∷ []
          → base ≤ W.now r.1
          → Ending task_id deadline [] shown s (look W utf8 h l again task_id shown s.posted r)
      look-Ending shown s (err e, w) log late =
          after_answer (err e) [] shown shown s (record { world = w; posted = s.posted }) _ log
            (sym (append-nil s.posted)) (λ rest. refl)
            (asleep (err e ∷ []) shown (record { world = w; posted = s.posted }) (λ t rest m f. f)
              late)
      look-Ending shown s (ok snap, w) log late =
          carded snap snap.pending shown s (record { world = w; posted = s.posted }) refl log refl
            late

    -- One look at the clock: the task has run out of time, or the rest of the loop ends.
    round :
        Clocked W
        → (n : ℕ) (shown : List String) (s : Run W)
        → (ltb (W.now s.world) deadline ≡ true
            → Ending task_id deadline [] shown s (
                look W utf8 h l
                  (poll W utf8 h l n task_id deadline)
                  task_id
                  shown
                  s.posted
                  (W.get task_id s.world)))
        → Ending task_id deadline [] shown s (poll W utf8 h l (suc n) task_id deadline shown s)
    unfolding poll post
    round clock n shown s early =
        if_elim (Ending task_id deadline [] shown s) (ltb (W.now s.world) deadline)
          (look W utf8 h l (poll W utf8 h l n task_id deadline) task_id shown s.posted
            (W.get task_id s.world))
          (post W (timed_out W utf8 h l) s) early
          (λ past.
            let out : deadline ≤ W.now s.world = ground arith in
            finished [] (timed_out W utf8 h l) shown s
              (refl, omega (arith, out, clock.sent (timed_out W utf8 h l) s.world)))

    poll-Ending :
        Clocked W
        → (n : ℕ) (shown : List String) (s : Run W) → deadline ≤ W.now s.world + n * h.poll_every
        → Ending task_id deadline [] shown s (poll W utf8 h l (suc n) task_id deadline shown s)
    poll-Ending clock zero shown s enough =
        round clock zero shown s
          (λ early. absurd (omega (arith, ltb→lt (W.now s.world) deadline early)))
    poll-Ending clock (suc n) shown s enough = round clock (suc n) shown s (λ _.
        look-Ending clock (poll W utf8 h l (suc n) task_id deadline) (W.now s.world)
          (λ shown' s' late. poll-Ending clock n shown' s' (ground arith)) shown s
          (W.get task_id s.world) refl (clock.got task_id s.world))

  -- What a run does, from where it starts to where it ends.
  abbrev pub Ends : Run W → Run W → Type 0
  Ends s after =
      let acknowledged = post W (acknowledgement W utf8 h l) s in
      let answer = W.submit (submit_body W utf8 h l) acknowledged.world in
      ((trim_space l.text ≡ "") × (after ≡ s))
      ⊎ ((trim_space l.text ≢ "")
          × (((e : String) × (answer.0 ≡ err e)
                × (after.posted ≡ acknowledged.posted ++ not_started W utf8 h l e ∷ []))
              ⊎ ((task_id : String) × (answer.0 ≡ ok task_id)
                  × Ending task_id (W.now answer.1 + h.poll_for) [] []
                      (record { world = answer.1; posted = acknowledged.posted }) after)))

  start-Ends :
      Clocked W
      → (n : ℕ) (posted : List Message) (r : Result String String × W.State)
      → h.poll_for ≤ n * h.poll_every
      → ((e : String) × (r.0 ≡ err e)
          × ((start W utf8 h l (suc n) posted r).posted ≡ posted ++ not_started W utf8 h l e ∷ []))
        ⊎ ((task_id : String) × (r.0 ≡ ok task_id)
            × Ending task_id
                (W.now r.1 + h.poll_for)
                []
                []
                (record { world = r.1; posted = posted })
                (start W utf8 h l (suc n) posted r))
  unfolding post
  start-Ends clock n posted (err e, w) enough = inl (e, refl, refl)
  start-Ends clock n posted (ok task_id, w) enough = inr (
    task_id,
    refl,
    poll-Ending task_id (W.now w + h.poll_for) clock n [] (record { world = w; posted = posted })
        (omega arith),
  )

  -- A task with a blank text does nothing. Any other is acknowledged in its thread first; then either
  -- the runtime does not take it, and the thread is told so, or the runtime is polled, and by the
  -- answers that it gave the thread gets exactly one card for each approval that they name, at its
  -- first naming, and after them one last message: the output, if the last answer is that the task is
  -- done, its last error, if that is that it failed, and that the time is up only if no answer was
  -- either and the deadline has passed. So many rounds as outlast the time for polling are enough for
  -- that last message, if a sleep lasts and no call turns the clock back.
  pub run_task-Ends :
      Clocked W₀
      → (n : ℕ) (s : Run W) → h.poll_for ≤ n * h.poll_every
      → Ends s (run_task W utf8 h l (suc n) s)
  unfolding run_task
  run_task-Ends clock n s enough =
      if_elim (Ends s) (trim_space l.text == "") s
        (acknowledge W utf8 h l (suc n) (post W (acknowledgement W utf8 h l) s))
        (λ blank. inl (ground arith, refl))
        (λ some_text. inr (
          ground arith,
          start-Ends (watched-Clocked W₀ clock) n (post W (acknowledgement W utf8 h l) s).posted
              (W.submit (submit_body W utf8 h l) (post W (acknowledgement W utf8 h l) s).world)
              enough,
        ))
