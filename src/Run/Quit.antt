-- ===== src/Run/Quit.antt =====
-- How the run loop ends.
use tablet_magic.Base.{
  ℕ, ◌≡◌, refl, ◌∙◌, arith, Bool, true, false, ◌&&◌, List, [], ◌∷◌, ◌++◌, Option, some,
}
use tablet_magic.Protocol.Sensing.{Rect}
use tablet_magic.Daemon.State.{Tablet}
use tablet_magic.Daemon.Mapping.{screen_changed}
use tablet_magic.Control.World.{World}
use tablet_magic.Control.Handle.{Environment}
use tablet_magic.Run.Loop.{
  count_second, RunLoop, Call, timer, stream_timer, display, powered_on, message, signal, go_on,
  stop, ask_to_quit, change_tablet, tablet_timer, call, run_calls,
}
use tablet_magic.Run.Runner.{if-is, run_calls-step}

quit-count_second : (t : Tablet) → (count_second t).quit_processor ≡ t.quit_processor
unfolding count_second
quit-count_second t = ground arith

sent-count_second : (t : Tablet) → (count_second t).sent ≡ t.sent
unfolding count_second
sent-count_second t = ground arith

module _ (e : Environment) where
  -- A callback that handles neither the tablet's replies nor a message.
  abbrev pub is_quiet : Call e → Bool
  is_quiet (timer chunks left) = false
  is_quiet stream_timer = true
  is_quiet (display bounds) = true
  is_quiet powered_on = false
  is_quiet (message bytes) = false
  is_quiet signal = true

  abbrev pub all_quiet : List (Call e) → Bool
  all_quiet [] = true
  all_quiet (c ∷ cs) = is_quiet c && all_quiet cs

  -- What a stopped loop has left, of a world.
  pub record IsStopped (w : World e.device) (o : Option (RunLoop e)) : Type 0 where
    pub left : World e.device
    pub same_port : left.port ≡ w.port
    pub same_framer : left.framer ≡ w.framer
    pub same_events : left.tablet.sent ≡ w.tablet.sent
    pub stopped : o ≡ some (stop e left)

  tablet_timer-quit :
      (chunks : List (List ℕ)) (left : e.device.State) (w : World e.device)
      → w.tablet.quit_processor ≡ true
      → tablet_timer e chunks left w ≡ some (stop e w)
  unfolding tablet_timer
  tablet_timer-quit chunks left w p = if-is true (some (stop e w)) _ p

  -- What a quiet callback does.
  record Quietly (c : Call e) (w : World e.device) : Type 0 where
    after : World e.device
    made : call e c w ≡ some (go_on e after)
    same_port : after.port ≡ w.port
    same_framer : after.framer ≡ w.framer
    same_events : after.tablet.sent ≡ w.tablet.sent
    quits : w.tablet.quit_processor ≡ true → after.tablet.quit_processor ≡ true

  call-change :
      (w : World e.device)
      → (call e stream_timer w ≡ some (go_on e (change_tablet e count_second w)))
        × (call e signal w ≡ some (go_on e (change_tablet e ask_to_quit w)))
  unfolding call
  call-change w = (refl, refl)

  call-display :
      (bounds : Rect) (w : World e.device)
      → call e (display bounds) w
        ≡ some (go_on e (change_tablet e (screen_changed e.floats bounds) w))
  unfolding call
  call-display bounds w = refl

  change_tablet-Quietly :
      (f : Tablet → Tablet) (c : Call e) (w : World e.device)
      → call e c w ≡ some (go_on e (change_tablet e f w))
      → (f w.tablet).sent ≡ w.tablet.sent
      → (w.tablet.quit_processor ≡ true → (f w.tablet).quit_processor ≡ true)
      → Quietly c w
  change_tablet-Quietly f c w made sent quits = record {
    after = change_tablet e f w;
    made = made;
    same_port = refl;
    same_framer = refl;
    same_events = sent;
    quits = quits;
  }

  stream_timer-Quietly : (w : World e.device) → Quietly stream_timer w
  stream_timer-Quietly w =
      change_tablet-Quietly count_second stream_timer w (call-change w).0
        (sent-count_second w.tablet) (λ p. quit-count_second w.tablet ∙ p)

  display-Quietly : (bounds : Rect) (w : World e.device) → Quietly (display bounds) w
  unfolding screen_changed
  display-Quietly bounds w =
      change_tablet-Quietly (screen_changed e.floats bounds) (display bounds) w
        (call-display bounds w) refl (λ p. p)

  signal-Quietly : (w : World e.device) → Quietly signal w
  signal-Quietly w = change_tablet-Quietly ask_to_quit signal w (call-change w).1 refl (λ p. refl)

  call-Quietly : (c : Call e) (w : World e.device) → is_quiet c ≡ true → Quietly c w
  call-Quietly stream_timer w q = stream_timer-Quietly w
  call-Quietly (display bounds) w q = display-Quietly bounds w
  call-Quietly signal w q = signal-Quietly w
  call-Quietly (timer _ _) w q = absurd (cc)
  call-Quietly powered_on w q = absurd (cc)
  call-Quietly (message _) w q = absurd (cc)

  run_calls-timer :
      (chunks : List (List ℕ)) (left : e.device.State) (w : World e.device)
      → w.tablet.quit_processor ≡ true
      → run_calls e (timer chunks left ∷ []) w ≡ some (stop e w)
  unfolding call
  run_calls-timer chunks left w p =
      run_calls-step e (timer chunks left) [] w (stop e w) (tablet_timer-quit chunks left w p)

  both : (a b : Bool) → a && b ≡ true → (a ≡ true) × (b ≡ true)
  both true b h = (refl, h)
  both false b h = cc

  stops :
      (cs : List (Call e)) (chunks : List (List ℕ)) (left : e.device.State) (w : World e.device)
      → all_quiet cs ≡ true
      → w.tablet.quit_processor ≡ true
      → IsStopped w (run_calls e (cs ++ (timer chunks left ∷ [])) w)
  stops [] chunks left w q p = record {
    left = w;
    same_port = refl;
    same_framer = refl;
    same_events = refl;
    stopped = run_calls-timer chunks left w p;
  }
  stops (c ∷ cs) chunks left w q p =
      let (now, later) = both (is_quiet c) (all_quiet cs) q in
      let one = call-Quietly c w now in
      let rest = stops cs chunks left one.after later (one.quits p) in
      record {
        left = rest.left;
        same_port = rest.same_port ∙ one.same_port;
        same_framer = rest.same_framer ∙ one.same_framer;
        same_events = rest.same_events ∙ one.same_events;
        stopped =
            run_calls-step e c (cs ++ (timer chunks left ∷ [])) w (go_on e one.after) one.made
            ∙ rest.stopped;
      }

  -- After a signal, whatever seconds of the stream, changes of the screen and further signals come
  -- before it, the next look at the port stops the loop: nothing is read, and no event is posted.
  pub run_calls-signal :
      (cs : List (Call e)) (chunks : List (List ℕ)) (left : e.device.State) (w : World e.device)
      → all_quiet cs ≡ true
      → IsStopped w (run_calls e (signal ∷ (cs ++ (timer chunks left ∷ []))) w)
  run_calls-signal cs chunks left w q =
      let u = change_tablet e ask_to_quit w in
      let rest = stops cs chunks left u q refl in
      record {
        left = rest.left;
        same_port = rest.same_port;
        same_framer = rest.same_framer;
        same_events = rest.same_events;
        stopped =
            run_calls-step e signal (cs ++ (timer chunks left ∷ [])) w (go_on e u) (call-change w).1
            ∙ rest.stopped;
      }
