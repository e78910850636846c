-- ===== src/Modelwork/Calibration/Bounds.antt =====
-- The confidence of a calibrated field lies between zero and one, whatever its model answers.
use land_record_digitalizati.Modelwork.Runtime.{Floats, IsOrdered}
use land_record_digitalizati.Modelwork.Runtime.Bounds.{IsUnit, IsUnit-bounded}
use land_record_digitalizati.Modelwork.Calibration.{
  CalibratorFeatures, PerStratumCalibrator, calibrate_field,
}

pub calibrate_field-IsUnit :
    {F : Type 0} ⦃fl : Floats F⦄ (laws : IsOrdered F) (c : PerStratumCalibrator F)
    (f : CalibratorFeatures F)
    → IsUnit laws (calibrate_field c f).calibrated_confidence
unfolding calibrate_field
calibrate_field-IsUnit laws c f = IsUnit-bounded laws _
