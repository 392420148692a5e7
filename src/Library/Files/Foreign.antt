-- ===== src/Library/Files/Foreign.antt =====
-- An installation and a removal destroy no file but the old one of their plan.
use h2hdb_ingest.Prelude.{
  ℕ, Bool, true, false, Option, none, some, Result, ok, err, ◌≡◌, sym, subst,
}
use h2hdb_ingest.Library.Files.{
  Signature, File, Files, Slot, in_stage, in_current, in_quarantine, Error, Run, file_at,
  same_inode, without, rename,
}
use h2hdb_ingest.Library.Files.Checks.{verify_shared, verify_renamed, require_authority}
use h2hdb_ingest.Library.Files.Capture.{
  heal_duplicate, check_or_give_back, give_back_unless, given_back, quarantine_current,
  unlink_found,
}
use h2hdb_ingest.Library.Files.Kept.{
  is_kept, Keeps, Keeps-bind, Keeps-check, Keeps-pure, Keeps-rename, Keeps-unlink,
}
use h2hdb_ingest.Library.Files.Twins.{
  capture-twin, install-twin, retired-other, verify_shared-capture, verify_shared-install,
  verify_renamed-other, require_authority-other,
}

given_files :
    (g : File) (o : Result Error (Unit {0}) × Run)
    → is_kept g o.1.files ≡ true
    → is_kept g (given_back o).1.files ≡ true
given_files g (ok a, s) w = w
given_files g (err e, s) w = w

-- the deletion of a captured file, where that is verified to be the old one
retired-Keeps :
    (g : File) (fs : Files) (f : File) (t : ℕ)
    → file_at in_quarantine fs ≡ some f
    → same_inode g f ≡ false
    → is_kept g fs ≡ true
    → is_kept g (without in_quarantine f t fs) ≡ true
retired-Keeps g fs f t at n w = retired-other g f t fs.stage fs.current n (
    subst
      (λ o. is_kept g (record { stage = fs.stage; current = fs.current; quarantine = o }) ≡ true) at
      w)

given_back-Keeps :
    (g : File) (c : Result Error (Unit {0})) (s : Run)
    → is_kept g s.files ≡ true
    → is_kept g (give_back_unless c s).1.files ≡ true
given_back-Keeps g (ok a) s w = w
given_back-Keeps g (err e) s w =
    given_files g (rename in_quarantine in_current s)
      ((Keeps-rename g {fs = s.files} in_quarantine in_current).at s.events w)

module _ (g : File) {fs : Files} where
  -- the collapse of a doubled name, where the names are those of one inode
  heal-Keeps :
      (digest size : ℕ) (expected : Signature) (src dst : Slot)
      → ((f : File) (e a : Signature) (t : ℕ)
          → verify_shared digest size e src dst fs ≡ ok a
          → file_at src fs ≡ some f
          → is_kept g fs ≡ true
          → is_kept g (without src f t fs) ≡ true)
      → Keeps g fs (heal_duplicate digest size expected src dst)
  unfolding heal_duplicate
  heal-Keeps digest size expected src dst k = Keeps-check g _ _ (λ duplicate e.
      Keeps-check g _ _ (λ durable e'. Keeps-check g _ _ (λ _ _.
        Keeps-bind g (Keeps-unlink g src (λ f t at w. k f expected duplicate t e at w)) (λ _ fs'.
          Keeps-check g _ _ (λ _ _. Keeps-check g _ _ (λ _ _. Keeps-check g _ _ (λ _ _.
            Keeps-check g _ _
              (λ _ _. Keeps-check g _ _ (λ _ _. Keeps-check g _ _ (λ _ _. Keeps-pure g _))))))))))

  pub heal_capture-Keeps :
      (digest size : ℕ) (expected : Signature)
      → Keeps g fs (heal_duplicate digest size expected in_current in_quarantine)
  heal_capture-Keeps digest size expected =
      heal-Keeps digest size expected in_current in_quarantine (λ f e a t v at w.
        subst
          (λ o.
            is_kept g (
              without in_current f t
                (record { stage = fs.stage; current = o; quarantine = fs.quarantine }))
            ≡ true)
          (sym at)
          (capture-twin g f t fs.stage fs.quarantine
            (verify_shared-capture digest size f fs.quarantine e a fs.stage (
              subst
                (λ o.
                  verify_shared digest size e in_current in_quarantine
                    (record { stage = fs.stage; current = o; quarantine = fs.quarantine })
                  ≡ ok a)
                at v))
            (subst
              (λ o.
                is_kept g (record { stage = fs.stage; current = o; quarantine = fs.quarantine })
                ≡ true)
              at w)))

  pub heal_install-Keeps :
      (digest size : ℕ) (expected : Signature)
      → Keeps g fs (heal_duplicate digest size expected in_stage in_current)
  heal_install-Keeps digest size expected =
      heal-Keeps digest size expected in_stage in_current (λ f e a t v at w.
        install-twin g f t fs.current fs.quarantine
          (verify_shared-install digest size f fs.current e a fs.quarantine (
            subst
              (λ o.
                verify_shared digest size e in_stage in_current
                  (record { stage = o; current = fs.current; quarantine = fs.quarantine })
                ≡ ok a)
              at v))
          (subst
            (λ o.
              is_kept g (record { stage = o; current = fs.current; quarantine = fs.quarantine })
              ≡ true)
            at w))

  pub unlink_found-Keeps :
      (old : File) (digest size : ℕ) (reuse : Bool) (o : Option File)
      → same_inode g old ≡ false
      → Keeps g fs (unlink_found digest size old.signature reuse o)
  unlink_found-Keeps old digest size reuse none n = Keeps-pure g tt
  unlink_found-Keeps old digest size true (some x) n = Keeps-check g _ _ (λ observed e.
      Keeps-check g _ _ (λ _ _. Keeps-unlink g in_quarantine (λ f t at w.
        retired-Keeps g fs f t at
          (require_authority-other size g f old observed fs.stage fs.current n (
            subst
              (λ o.
                require_authority size old.signature true in_quarantine
                  (record { stage = fs.stage; current = fs.current; quarantine = o })
                ≡ ok observed)
              at e))
          w)))
  unlink_found-Keeps old digest size false (some x) n = Keeps-check g _ _ (λ verified e.
      Keeps-check g _ _ (λ _ _. Keeps-check g _ _ (λ _ _. Keeps-unlink g in_quarantine (λ f t at w.
        retired-Keeps g fs f t at
          (verify_renamed-other digest size g f old verified fs.stage fs.current n (
            subst
              (λ o.
                verify_renamed digest size old.signature in_quarantine
                  (record { stage = fs.stage; current = fs.current; quarantine = o })
                ≡ ok verified)
              at e))
          w))))

  pub quarantine_current-Keeps :
      (digest size : ℕ) (expected : Signature) (reuse : Bool)
      → Keeps g fs (quarantine_current digest size expected reuse)
  unfolding quarantine_current
  quarantine_current-Keeps digest size expected reuse = Keeps-check g _ _ (λ _ _.
      Keeps-check g _ _ (λ _ _. Keeps-bind g (Keeps-rename g in_current in_quarantine) (λ _ fs'.
        unfold check_or_give_back in
        record { at = λ es w. given_back-Keeps g _ (record { files = fs'; events = es }) w })))
