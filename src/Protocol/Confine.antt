-- ===== src/Protocol/Confine.antt =====
-- `ProcessWacomIIS_Binary` in relative mode: the point stays on the tablet.
use tablet_magic.Base.{
  ℕ, ◌≡◌, ◌∙◌, ap, arith, Bool, ◌==◌, if◌then◌else◌, List, inl, inr, Bool-cases, differ,
}
use tablet_magic.Int.{ℤ, pos, ◌+ℤ◌, neg_ℤ, ◌-ℤ◌, ◌≤ℤ◌, ◌<ℤ◌}
use tablet_magic.Settings.Constants.{coord_sys_relative, origin_ll}
use tablet_magic.Protocol.WacomIv.{coordinate}
use tablet_magic.Stylus.{Stylus, set_buttons}
use tablet_magic.Protocol.Sensing.{Sensing}
use tablet_magic.Protocol.TabletPc.{move}
use tablet_magic.Protocol.WacomIis.{
  Pressed, clamp, iis_point, iis_start, iis_pressed, press_branch, sd_branch, sd_level,
  pressure_branch, button_branch, leave, confine, process_wacom_iis_binary,
}

clamp-range : (scale v : ℤ) → pos 0 <ℤ scale → (pos 0 ≤ℤ clamp scale v) × (clamp scale v <ℤ scale)
unfolding clamp ◌-ℤ◌
clamp-range scale v h = (ground arith, ground arith)

press_branch-point :
    (t : Sensing) (pk : List ℕ) (s : Stylus) → (press_branch t pk s).0.point ≡ s.point
unfolding press_branch sd_branch sd_level pressure_branch button_branch
press_branch-point t pk s = ground arith

leave-point : (pk : List ℕ) (p : Pressed) → (leave pk p).0.point ≡ p.0.point
unfolding leave
leave-point pk p = ground arith

confine-relative :
    (t : Sensing) (p : Pressed) → t.settings.coordsys ≡ coord_sys_relative → confine t p ≡ p
unfolding confine
confine-relative t p h = rw h

move-point : (ot : Bool) (s : Stylus) → (move ot s).point ≡ s.point
unfolding move
move-point ot s = elim (Bool-cases (differ s.off_tablet ot)) [ inl h ↦ rw h | inr h ↦ rw h ]

-- In relative mode a packet of seven bytes, as the interpreter of the binary format of protocol II-S
-- takes it, leaves the stylus on the tablet: with positive scales the coordinates are from 0 up to the
-- scales, wherever the stylus was before.
pub process_wacom_iis_binary-relative :
    (t : Sensing) (pk : List ℕ) (s : Stylus)
    → t.settings.coordsys ≡ coord_sys_relative
    → pos 0 <ℤ t.settings.xscale
    → pos 0 <ℤ t.settings.yscale
    → let p = (process_wacom_iis_binary t pk 7 s).point in
      (pos 0 ≤ℤ p.x) × (p.x <ℤ t.settings.xscale) × (pos 0 ≤ℤ p.y) × (p.y <ℤ t.settings.yscale)
unfolding process_wacom_iis_binary iis_pressed iis_start iis_point set_buttons
process_wacom_iis_binary-relative t pk s relative hx hy =
    let start = iis_start t pk s in
    let p = iis_pressed t pk s in
    let kept : (move p.2 p.0).point ≡ iis_point t pk s.point =
      move-point p.2 p.0
      ∙ ap (λ (p : Pressed). p.0.point)
          (confine-relative t (leave pk (press_branch t pk start)) relative)
      ∙ leave-point pk (press_branch t pk start)
      ∙ press_branch-point t pk start in
    let flipped = t.settings.origin == origin_ll in
    let v = pos (coordinate pk 3) in
    let x = clamp-range t.settings.xscale (pos (coordinate pk 0) +ℤ s.point.x) hx in
    let y = clamp-range t.settings.yscale ((if flipped then neg_ℤ v else v) +ℤ s.point.y) hy in
    rw (kept, relative) (x.0, x.1, y.0, y.1)
