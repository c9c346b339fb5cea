-- ===== src/Process/ConfigLaws.antt =====
-- What loading the configuration gives.
use kubesphere_schedule.Process.Config.{Config, Store, load_from_disk, Viper}
use kubesphere_schedule.Base.{◌≡◌, ℕ, zero, suc, none, arith, String, Option}

module _ {F M : Type 0} (viper : Viper F M) where
  -- The state after `n` loads, and what the last of them returned.
  abbrev pub load_times : ℕ → Store F M → (Config F × Option String) × Store F M
  load_times zero c = load_from_disk viper c
  load_times (suc n) c = load_from_disk viper (load_times n c).1

  -- The file is read once: each load after the first one returns the configuration that the first
  -- load left, with no error, also where the first load failed.
  pub load_from_disk-once :
      (n : ℕ) (c : Store F M)
      → load_times (suc n) c ≡ (((load_from_disk viper c).1.cfg, none), (load_from_disk viper c).1)
  unfolding load_from_disk
  load_from_disk-once zero c = ground arith
  load_from_disk-once (suc n) c = rw (load_from_disk-once n c) (ground arith)
