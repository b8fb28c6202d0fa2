-- ===== src/Tests/Creation.antt =====
-- The part of `CreateVolume` under the lock, at a concrete plan.
use lxd_csi_driver.Base.{[], pos, false}
use lxd_csi_driver.Strings.{codes}
use lxd_csi_driver.Controller.Create.{Plan}

abbrev example_plan : Plan
example_plan = record {
  vol_name = codes "csi-0123";
  content_type = codes "filesystem";
  size = pos 1073741824;
  pool_name = codes "default";
  driver = record { name = codes "zfs"; remote = false };
  target = [];
}
