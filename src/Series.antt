-- ===== src/Series.antt =====
-- common/Constants.h: `SeriesIndex`.
pub data Series : Type 0 where
  unknown intuos2 intuos graphire3 graphire2 graphire cintiq cintiq_partner art_z : Series
  art_pad pen_partner sd_series tablet_pc fujitsu_p cal_comp pl_series ud_series : Series
