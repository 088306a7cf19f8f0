-- ===== src/Store/Written.antt =====
-- What a successful write leaves behind, for any file of the store.
use draco.Base.{
  if◌then◌else◌, Option-cases, unwrap_or, ok, ◌≡◌, sym, ap, ◌∙◌, inl, inr, Bool, true, false, some,
  arith,
}
use draco.Text.{Text, text_eq, text_eq_refl}
use draco.Store.{Disk, written, FileSystem, Codec, decoded, read_toml, write_toml}

-- A disk on which every write succeeds, and values that `toml` can print.
pub record IsWorking {A : Type 0} (fs : FileSystem) (codec : Codec A) : Type 0 where
  pub printed : (a : A) → (raw : Text) × (codec.to_toml a ≡ some raw)
  pub writes :
      (path raw : Text) (disk : Disk) → (disk' : Disk) × (fs.write path raw disk ≡ (disk', ok tt))

pub if_true {ℓ} : {A : Type ℓ} (test : Bool) (x y : A) → test ≡ true → (if test then x else y) ≡ x
if_true test x y h = rw h

pub if_false {ℓ} : {A : Type ℓ} (test : Bool) (x y : A) → test ≡ false → (if test then x else y) ≡ y
if_false test x y h = rw h

module _ {A : Type 0} (fs : FileSystem) (codec : Codec A) (file : Text) (a : A) where
  write_toml-printed :
      (raw : Text) (disk : Disk)
      → codec.to_toml a ≡ some raw
      → write_toml fs codec file a disk ≡ fs.write file raw disk
  unfolding write_toml
  write_toml-printed raw disk printed = ground (arith, printed)

  -- A write that succeeds has printed the value and replaced the file by the text.
  pub write_toml-ok :
      (disk disk' : Disk)
      → write_toml fs codec file a disk ≡ (disk', ok tt)
      → (raw : Text) × (codec.to_toml a ≡ some raw) × (disk' ≡ written file raw disk)
  unfolding write_toml
  write_toml-ok disk disk' h = elim (Option-cases (codec.to_toml a)) [
    | inl nothing ↦ ground (arith, nothing)
    | inr (raw, printed) ↦ (
      raw,
      printed,
      fs.write_ok file raw disk disk' (sym (write_toml-printed raw disk printed) ∙ h),
    )
  ]

  pub read-written_self :
      (raw : Text) (disk : Disk)
      → codec.to_toml a ≡ some raw
      → read_toml codec file (written file raw disk) ≡ a
  unfolding read_toml
  read-written_self raw disk printed =
      ap (decoded codec) (if_true (text_eq file file) _ _ (text_eq_refl file))
      ∙ ap (λ t. unwrap_or t codec.default) (codec.from_to a raw printed)

  pub write_toml-IsWorking :
      (disk : Disk)
      → IsWorking fs codec
      → (raw : Text) × (codec.to_toml a ≡ some raw)
        × (write_toml fs codec file a disk ≡ (written file raw disk, ok tt))
  unfolding write_toml
  write_toml-IsWorking disk works =
      let (raw, printed) = works.printed a in
      let (disk', wrote) = works.writes file raw disk in
      let same = fs.write_ok file raw disk disk' wrote in
      (raw, printed, write_toml-printed raw disk printed ∙ wrote ∙ ap (λ d. (d, ok tt)) same)

-- Another file than the one that was written reads as before.
pub read-written_other :
    {A : Type 0} (codec : Codec A) (file other_file raw : Text) (disk : Disk)
    → text_eq file other_file ≡ false
    → read_toml codec other_file (written file raw disk) ≡ read_toml codec other_file disk
unfolding read_toml
read-written_other codec file other_file raw disk apart =
    ap (decoded codec) (if_false (text_eq file other_file) _ _ apart)
