-- ===== src/Daemon/Columns.antt =====
-- The reply to a request for the largest coordinates: `~C`, and two numbers of five digits.
use tablet_magic.Base.{
  ℕ, ◌+◌, ◌*◌, ◌/◌, ◌%◌, ◌^◌, ◌<◌, ◌≡◌, ◌≢◌, refl, ap, ◌∙◌, arith, Bool, true, false, ◌==◌,
  if◌then◌else◌, List, [], ◌∷◌, ◌++◌, All, some, Bool-cases, ◌⊎◌, inl, inr,
}
use mathlib.Core.Path.{ap₂}
use tablet_magic.Int.{ℤ, pos, eqb_ℤ, eq_of_parts}
use tablet_magic.Daemon.Queue.{message_scale, spaced}
use tablet_magic.Floats.{Floats}
use tablet_magic.Format.{codes, c_string, is_digit, is_space, dec_run, scan_long, atol, to_sint32}
use tablet_magic.Daemon.State.{Tablet}
use tablet_magic.Daemon.Mapping.{update_tablet_scale}
use tablet_magic.Daemon.Reply.{
  reply_h, reply_v, reply_size, reply_kind, log_reply, process_command_reply,
}

abbrev digit : ℕ → ℕ → ℕ
digit n k = n / 10 ^ k % 10 + b'0'

-- `%05d`, of a number below 100000.
abbrev pub five_digits : ℕ → List ℕ
five_digits n = digit n 4 ∷ digit n 3 ∷ digit n 2 ∷ digit n 1 ∷ digit n 0 ∷ []

digit_lem :
    (d : ℕ)
    → d < 10
    → (is_digit (d + b'0') ≡ true)
      × (is_space (d + b'0') ≡ false)
      × ((d + b'0' == b'-') ≡ false)
      × ((d + b'0' == b'+') ≡ false)
      × ((d + b'0' == 0) ≡ false)
digit_lem d h = ground arith

dec_run-digit :
    (acc d : ℕ) (s : List ℕ) → d < 10 → dec_run acc ((d + b'0') ∷ s) ≡ dec_run (acc * 10 + d) s
unfolding dec_run
dec_run-digit acc d s h = rw ((digit_lem d h).0) (ap (λ (a : ℕ). dec_run a s) (omega arith))

dec_run-five_digits : (n : ℕ) → n < 100000 → dec_run 0 (five_digits n) ≡ (n, [])
dec_run-five_digits n h =
    dec_run-digit 0 (n / 10 ^ 4 % 10) _ (omega arith)
    ∙ dec_run-digit _ (n / 10 ^ 3 % 10) _ (omega arith)
    ∙ dec_run-digit _ (n / 10 ^ 2 % 10) _ (omega arith)
    ∙ dec_run-digit _ (n / 10 ^ 1 % 10) _ (omega arith)
    ∙ dec_run-digit _ (n / 10 ^ 0 % 10) [] (omega arith)
    ∙ unfold dec_run in ap (λ (v : ℕ). (v, [])) (omega arith)

scan_long-digits :
    (d n : ℕ) (s : List ℕ)
    → d < 10
    → n < 100000
    → dec_run 0 ((d + b'0') ∷ s) ≡ (n, [])
    → scan_long ((d + b'0') ∷ s) ≡ some (pos n, [])
unfolding scan_long
scan_long-digits d n s h fits run =
    let facts = digit_lem d h in
    rw (facts.1, facts.2, facts.3, run, facts.0) (ap (λ (v : ℕ). some (pos v, [])) (ground arith))

atol-some : (s rest : List ℕ) (v : ℤ) → scan_long s ≡ some (v, rest) → atol s ≡ v
unfolding atol
atol-some s rest v e = rw (e, atol)

atol-five_digits : (n : ℕ) → n < 100000 → atol (five_digits n) ≡ pos n
atol-five_digits n h =
    atol-some (five_digits n) [] (pos n)
      (scan_long-digits (n / 10 ^ 4 % 10) n _ (omega arith) h (dec_run-five_digits n h))

-- The reply, which ends in CR.
abbrev pub size_reply : ℕ → ℕ → List ℕ
size_reply x y = b'~' ∷ b'C' ∷ five_digits x ++ (b',' ∷ five_digits y ++ b'\r' ∷ [])

to_sint32-small : (n : ℕ) → n < 100000 → to_sint32 (pos n) ≡ pos n
to_sint32-small n h = ground arith

reply_h-size_reply : (x y : ℕ) → x < 100000 → reply_h (size_reply x y) ≡ pos x
reply_h-size_reply x y h = ap to_sint32 (atol-five_digits x h) ∙ to_sint32-small x h

reply_v-size_reply : (x y : ℕ) → y < 100000 → reply_v (size_reply x y) ≡ pos y
reply_v-size_reply x y h = ap to_sint32 (atol-five_digits y h) ∙ to_sint32-small y h

-- A text without a NUL is all of the string.
pub c_string-id : (s : List ℕ) → All (λ c. c ≢ 0) s → c_string s ≡ s
unfolding c_string
c_string-id [] h = refl
c_string-id (c ∷ s) h = ground (arith, c_string-id s)

log_reply-off : (reply : List ℕ) (t : Tablet) → t.log.send_stream ≡ false → log_reply reply t ≡ t
unfolding log_reply
log_reply-off reply t off =
    let l = t.log in
    let shown = record t {
      log = record l { stream_size = 1; stream_pause = 2; stream_packet = reply };
    } in
    ap (λ (b : Bool). if b then shown else t) off

-- The scale x by y, and what becomes of the area and of the queue of messages.
pub record IsScaled (x y : ℕ) (t t' : Tablet) : Type 0 where
  pub xscale : t'.active.xscale ≡ pos x
  pub yscale : t'.active.yscale ≡ pos y
  pub same_x :
      t.active.xscale ≡ pos x → (t'.mapping.x ≡ t.mapping.x) × (t'.mapping.width ≡ t.mapping.width)
  pub same_y :
      t.active.yscale ≡ pos y
      → (t'.mapping.y ≡ t.mapping.y) × (t'.mapping.height ≡ t.mapping.height)
  pub silent : t.active.xscale ≡ pos x → t.active.yscale ≡ pos y → t'.queue ≡ t.queue
  pub told :
      (t.active.xscale ≢ pos x) ⊎ (t.active.yscale ≢ pos y)
      → t'.queue ≡ t.queue ++ (codes "[scale]" ++ (spaced (pos x) ++ spaced (pos y))) ∷ []

eqb_ℤ-refl : (v : ℤ) → eqb_ℤ v v ≡ true
eqb_ℤ-refl v = ground arith

eqb_ℤ-same : (u v : ℤ) → u ≡ v → eqb_ℤ u v ≡ true
eqb_ℤ-same u v e = rw e (eqb_ℤ-refl v)

eqb_ℤ-other : (u v : ℤ) → u ≢ v → eqb_ℤ u v ≡ false
eqb_ℤ-other u v h = elim (Bool-cases (eqb_ℤ u v)) [
  | inl e ↦ absurd (h (eq_of_parts u v (ground arith)))
  | inr e ↦ e
]

update_tablet_scale-IsScaled :
    (fl : Floats) (x y : ℕ) (t : Tablet)
    → IsScaled x y t (update_tablet_scale fl (pos x) (pos y) true t)
unfolding update_tablet_scale message_scale
update_tablet_scale-IsScaled fl x y t = record {
  xscale = ground arith;
  yscale = ground arith;
  same_x = λ e. rw (eqb_ℤ-same t.active.xscale (pos x) e) (ground arith);
  same_y = λ e. rw (eqb_ℤ-same t.active.yscale (pos y) e) (ground arith);
  silent =
      λ e f. rw (eqb_ℤ-same t.active.xscale (pos x) e, eqb_ℤ-same t.active.yscale (pos y) f) refl;
  told = λ h. elim h [
    | inl e ↦ rw (eqb_ℤ-other t.active.xscale (pos x) e) refl
    | inr e ↦ rw (eqb_ℤ-other t.active.yscale (pos y) e) (ground arith)
  ];
}

module _ (fl : Floats) (t : Tablet) (off : t.log.send_stream ≡ false) where
  reply_size-off :
      (reply : List ℕ)
      → reply_size fl reply t ≡ update_tablet_scale fl (reply_h reply) (reply_v reply) true t
  unfolding reply_size
  reply_size-off reply =
      let u = update_tablet_scale fl (reply_h reply) (reply_v reply) true t in
      ap (λ (b : Bool). if b then t else u) off

  reply-scaled :
      (stack x y : ℕ)
      → x < 100000
      → y < 100000
      → process_command_reply fl stack (size_reply x y) t
        ≡ some (update_tablet_scale fl (pos x) (pos y) true t)
  unfolding process_command_reply reply_kind
  reply-scaled stack x y hx hy =
      let reply = size_reply x y in
      let text = c_string-id reply (omega arith) in
      let numbers =
        ap₂ (λ h v. update_tablet_scale fl h v true t) (reply_h-size_reply x y hx)
          (reply_v-size_reply x y hy) in
      rw (text, log_reply-off reply t off) (ap some (reply_size-off reply ∙ numbers))

  -- Unless the stream is shown, the reply `~Cxxxxx,yyyyy` with numbers of five digits sets the scale of
  -- the tablet to these numbers. A direction whose scale stays keeps its part of the active area, and
  -- if the scale changes, the preference pane is sent the message with the two numbers.
  pub process_command_reply-size_reply :
      (stack x y : ℕ)
      → x < 100000
      → y < 100000
      → let t' = update_tablet_scale fl (pos x) (pos y) true t in
        (process_command_reply fl stack (size_reply x y) t ≡ some t') × IsScaled x y t t'
  process_command_reply-size_reply stack x y hx hy =
      (reply-scaled stack x y hx hy, update_tablet_scale-IsScaled fl x y t)
