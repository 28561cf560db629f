-- ===== src/Tests/Disks.antt =====
-- A file system that is a list of files, for the programs that read and write them.
use bartok.Base.{
  ◌≡◌, ◌≢◌, refl, sym, ap, Bool, true, false, Bool-cases, inl, inr, List, [], ◌∷◌, Result, ok, err,
  if◌then◌else◌,
}
use bartok.Base.Action.{Action}
use bartok.Text.{Text, text_eq}
use bartok.Text.Laws.{text_eq_iff}
use bartok.Role.{Files}

abbrev pub Disk : Type 0
Disk = List (Text × Text)

unfoldable pub on_disk : Text → Disk → Bool
on_disk p [] = false
on_disk p ((q, c) ∷ d) = if text_eq p q then true else on_disk p d

unfoldable pub content : Text → Disk → Result Text
content p [] = err "no such file"
content p ((q, c) ∷ d) = if text_eq p q then ok c else content p d

unfoldable pub put : Text → Text → Action Disk (Unit {0})
put p c d = (ok tt, (p, c) ∷ d)

pub put_exists : (p c : Text) (w w' : Disk) → put p c w ≡ (ok tt, w') → on_disk p w' ≡ true
unfolding put on_disk
put_exists p c w w' e = rw (← ap (λ q. q.1) e, (text_eq_iff p p).1 refl)

pub put_read : (p c : Text) (w w' : Disk) → put p c w ≡ (ok tt, w') → content p w' ≡ ok c
unfolding put content
put_read p c w w' e = rw (← ap (λ q. q.1) e, (text_eq_iff p p).1 refl)

pub put_other :
    (p q c : Text) (w w' : Disk) → q ≢ p → put p c w ≡ (ok tt, w') → content q w' ≡ content q w
unfolding put content
put_other p q c w w' differ e = elim (Bool-cases (text_eq q p)) [
  | inl same ↦ absurd (differ ((text_eq_iff q p).0 same))
  | inr other ↦ rw (← ap (λ x. x.1) e, other)
]

abbrev pub disk : Files Disk
disk = record {
  exists = on_disk;
  read_to_string = content;
  create_dir_all = λ _ w. (ok tt, w);
  write = put;
  set_permissions = λ _ _ w. (ok tt, w);
  write_exists = put_exists;
  write_read = put_read;
  write_other = put_other;
  mode_exists = λ p q mode w w' e. ap (λ x. on_disk q x.1) (sym e);
  mode_read = λ p q mode w w' e. ap (λ x. content q x.1) (sym e);
}

-- The same beside the rest of a world.
module _ (R : Type 0) where
  unfoldable pub put_beside : Text → Text → Action (Disk × R) (Unit {0})
  unfolding put
  put_beside p c w = (ok tt, ((put p c w.0).1, w.1))

  pub put_beside_exists :
      (p c : Text) (w w' : Disk × R) → put_beside p c w ≡ (ok tt, w') → on_disk p w'.0 ≡ true
  unfolding put_beside put
  put_beside_exists p c w w' e = put_exists p c w.0 w'.0 (ap (λ q. (q.0, q.1.0)) e)

  pub put_beside_read :
      (p c : Text) (w w' : Disk × R) → put_beside p c w ≡ (ok tt, w') → content p w'.0 ≡ ok c
  unfolding put_beside put
  put_beside_read p c w w' e = put_read p c w.0 w'.0 (ap (λ q. (q.0, q.1.0)) e)

  pub put_beside_other :
      (p q c : Text) (w w' : Disk × R)
      → q ≢ p
      → put_beside p c w ≡ (ok tt, w')
      → content q w'.0 ≡ content q w.0
  unfolding put_beside put
  put_beside_other p q c w w' differ e = put_other p q c w.0 w'.0 differ (ap (λ x. (x.0, x.1.0)) e)

  abbrev pub disk_beside : Files (Disk × R)
  disk_beside = record {
    exists = λ p w. on_disk p w.0;
    read_to_string = λ p w. content p w.0;
    create_dir_all = λ _ w. (ok tt, w);
    write = put_beside;
    set_permissions = λ _ _ w. (ok tt, w);
    write_exists = put_beside_exists;
    write_read = put_beside_read;
    write_other = put_beside_other;
    mode_exists = λ p q mode w w' e. ap (λ x. on_disk q x.1.0) (sym e);
    mode_read = λ p q mode w w' e. ap (λ x. content q x.1.0) (sym e);
  }
