-- ===== src/Daemon/Models.antt =====
-- The series that a reply to `~#` chooses.
use tablet_magic.Base.{
  ℕ, ◌≡◌, ◌≢◌, refl, arith, false, List, [], ◌∷◌, ◌++◌, if◌then◌else◌, Bool-cases, inl, inr,
}
use tablet_magic.Series.{
  Series, unknown, intuos2, intuos, graphire3, graphire2, graphire, cintiq, cintiq_partner, art_z,
  art_pad, pen_partner, sd_series, tablet_pc, fujitsu_p, cal_comp, pl_series, ud_series,
}
use tablet_magic.Daemon.Queue.{series_code}
use tablet_magic.Daemon.Identify.{begins_with, all_series, find_series}

-- A text that does not go on with the character.
abbrev pub StartsNotWith : ℕ → List ℕ → Type 0
StartsNotWith c [] = Unit {0}
StartsNotWith c (d ∷ s) = d ≢ c

-- What may follow the code of a series, for no earlier entry of the table to match: `ETA` stands
-- before `ET`, and `CTE` before `CT`. Three entries repeat the code of an earlier one.
abbrev pub Leads : Series → List ℕ → Type 0
Leads graphire rest = StartsNotWith b'A' rest
Leads pen_partner rest = StartsNotWith b'E' rest
Leads fujitsu_p rest = ⊥
Leads pl_series rest = ⊥
Leads ud_series rest = ⊥
Leads _ rest = Unit {0}

-- A ROM version that begins with the code of a series chooses that series, unless what follows
-- makes it the longer code of another; the three entries with a repeated code are left out.
pub find_series-series_code :
    (s old : Series) (rest : List ℕ)
    → Leads s rest
    → find_series (series_code s ++ rest) old all_series ≡ s
unfolding find_series
find_series-series_code unknown old rest h = refl
find_series-series_code intuos2 old rest h = refl
find_series-series_code intuos old rest h = refl
find_series-series_code graphire3 old rest h = refl
find_series-series_code graphire2 old rest h = refl
find_series-series_code graphire old [] h = refl
find_series-series_code graphire old (d ∷ rest) h = ground arith
find_series-series_code cintiq old rest h = refl
find_series-series_code cintiq_partner old rest h = refl
find_series-series_code art_z old rest h = refl
find_series-series_code art_pad old rest h = refl
find_series-series_code pen_partner old [] h = refl
find_series-series_code pen_partner old (d ∷ rest) h = ground arith
find_series-series_code sd_series old rest h = refl
find_series-series_code tablet_pc old rest h = refl
find_series-series_code fujitsu_p old rest h = absurd h
find_series-series_code cal_comp old rest h = refl
find_series-series_code pl_series old rest h = absurd h
find_series-series_code ud_series old rest h = absurd h

find_series-cons :
    (rom : List ℕ) (old s : Series) (l : List Series)
    → find_series rom old (s ∷ l)
      ≡ (if begins_with (series_code s) rom then s else find_series rom old l)
unfolding find_series
find_series-cons rom old s l = refl

-- The series that the table yields.
abbrev pub IsNew : Series → Series → Type 0
IsNew old s = s ≡ fujitsu_p → old ≡ fujitsu_p

IsNew-cons :
    (rom : List ℕ) (old s : Series) (l : List Series)
    → (s ≡ fujitsu_p → begins_with (series_code s) rom ≡ false)
    → IsNew old (find_series rom old l)
    → IsNew old (find_series rom old (s ∷ l))
IsNew-cons rom old s l never h = elim (Bool-cases (begins_with (series_code s) rom)) [
  | inl hit ↦ rw (find_series-cons rom old s l, hit) (λ e. cc (never e))
  | inr miss ↦ rw (find_series-cons rom old s l, miss) h
]

-- The second entry with the code `ISD` is never met: the first one takes it.
isd_IsNew :
    (rom : List ℕ) (old : Series)
    → IsNew old
        (find_series rom old (tablet_pc ∷ fujitsu_p ∷ cal_comp ∷ pl_series ∷ ud_series ∷ []))
unfolding find_series
isd_IsNew rom old = ground arith

pub find_series-IsNew : (rom : List ℕ) (old : Series) → IsNew old (find_series rom old all_series)
find_series-IsNew rom old =
    IsNew-cons rom old unknown _ (λ e. cc)
      (IsNew-cons rom old intuos2 _ (λ e. cc)
        (IsNew-cons rom old intuos _ (λ e. cc)
          (IsNew-cons rom old graphire3 _ (λ e. cc)
            (IsNew-cons rom old graphire2 _ (λ e. cc)
              (IsNew-cons rom old graphire _ (λ e. cc)
                (IsNew-cons rom old cintiq _ (λ e. cc)
                  (IsNew-cons rom old cintiq_partner _ (λ e. cc)
                    (IsNew-cons rom old art_z _ (λ e. cc)
                      (IsNew-cons rom old art_pad _ (λ e. cc)
                        (IsNew-cons rom old pen_partner _ (λ e. cc)
                          (IsNew-cons rom old sd_series _ (λ e. cc) (isd_IsNew rom old))))))))))))
