-- ===== src/Tests/Machine/Laws.antt =====
-- The machine of the tests behaves as the operations are documented to.
use field_docket.Base.{
  ℕ, ◌≡◌, ◌≢◌, refl, sym, ap, ◌∙◌, Bool, true, false, Bytes, codes, Option, none, some,
  if◌then◌else◌,
}
use mathlib.Core.Path.{subst}
use field_docket.Base.Compare.{same, same_iff, compare_bytes}
use field_docket.Go.Errors.{Error, ok, ok-injective}
use field_docket.Go.Path.{
  dir, clean, join_path, parts_of, render, is_rooted, push_all, split_path, push, up_to_slash,
}
use field_docket.Go.Text.{is_empty, join_with}
use field_docket.Store.Snapshot.{staged}
use field_docket.Store.Snapshot.Views.{FileState, View, IsDisk}
use field_docket.Command.Main.{disk}
use field_docket.Command.Main.Balanced.{IsQuiet}
use field_docket.Tests.Machine.{
  World, Place, tmp, entry, stage_name, tmp_name, place, place_by, file, is_below, make_at, exec_at,
  chmod_at, rename_at, remove_at, machine, accounts,
}

abbrev Same : World → World → Type 0
Same w w' = (w'.opened ≡ w.opened) × (w'.closed ≡ w.closed)

exec_at-Same : (h : Option ℕ) (p : Place) (w : World) → Same w (exec_at h p w).0
unfolding exec_at
exec_at-Same none p w = (refl, refl)
exec_at-Same (some h) tmp w = (refl, refl)
exec_at-Same (some h) (entry n) w = (refl, refl)

chmod_at-Same : (p : Place) (f : FileState) (m : ℕ) (w : World) → Same w (chmod_at p f m w).0
unfolding chmod_at
chmod_at-Same tmp none m w = (refl, refl)
chmod_at-Same tmp (some (m', c)) m w = (refl, refl)
chmod_at-Same (entry n) f m w = (refl, refl)

rename_at-Same : (p d : Place) (w : World) → Same w (rename_at p d w).0
unfolding rename_at
rename_at-Same tmp tmp w = (refl, refl)
rename_at-Same tmp (entry n) w = (refl, refl)
rename_at-Same (entry n) d w = (refl, refl)

remove_at-Same : (b : Bool) (w : World) → Same w (remove_at b w).0
unfolding remove_at
remove_at-Same true w = (refl, refl)
remove_at-Same false w = (refl, refl)

pub quiet : IsQuiet machine accounts
quiet = record {
  log = λ m w. (refl, refl);
  serve = λ st e w. (refl, refl);
  exec = λ h q p w. exec_at-Same h (place p) w;
  make_temp_dir = λ d p w. (refl, refl);
  chmod = λ p m w. chmod_at-Same (place p) (file w (place p)) m w;
  rename = λ p d w. rename_at-Same (place p) (place d) w;
  remove_all = λ p w. remove_at-Same (same p stage_name) w;
  print_line = λ m w. (refl, refl);
  print_defaults = λ w. (refl, refl);
}

abbrev pub view : View World
view = record {
  Place = Place;
  place = place;
  is_below = is_below;
  file = file;
  image = λ w. w.docket;
}

exec_at-else :
    (h : ℕ) (p q : Place) (w : World) → q ≢ p → file (exec_at (some h) p w).0 q ≡ file w q
unfolding exec_at
exec_at-else h tmp tmp w n = elim (n refl) [ ]
exec_at-else h tmp (entry m) w n = refl
exec_at-else h (entry m) q w n = refl

exec_at-copies :
    (h : ℕ) (p : Place) (w : World)
    → (exec_at (some h) p w).1 ≡ none
    → (m : ℕ) × (file (exec_at (some h) p w).0 p ≡ some (m, w.docket))
unfolding exec_at
exec_at-copies h tmp w e = (0o644, refl)
exec_at-copies h (entry m) w e = cc

chmod_at-else :
    (p q : Place) (f : FileState) (m : ℕ) (w : World)
    → q ≢ p
    → file (chmod_at p f m w).0 q ≡ file w q
unfolding chmod_at
chmod_at-else tmp tmp f m w n = elim (n refl) [ ]
chmod_at-else tmp (entry k) none m w n = refl
chmod_at-else tmp (entry k) (some (m', c)) m w n = refl
chmod_at-else (entry k) q f m w n = refl

chmod_at-sets :
    (p : Place) (f : FileState) (m m' : ℕ) (content : Bytes) (w : World)
    → f ≡ some (m', content)
    → (chmod_at p f m w).1 ≡ none
    → file (chmod_at p f m w).0 p ≡ some (m, content)
unfolding chmod_at
chmod_at-sets tmp none m m' content w h e = cc
chmod_at-sets tmp (some (k, c)) m m' content w h e =
    ap (λ (f : FileState). elim f as (λ x. FileState) [ none ↦ none | some x ↦ some (m, x.1) ]) h
chmod_at-sets (entry k) f m m' content w h e = cc

rename_at-fails :
    (p d : Place) (w : World) {e : Error}
    → (rename_at p d w).1 ≡ some e
    → (q : Place) → file (rename_at p d w).0 q ≡ file w q
unfolding rename_at
rename_at-fails tmp tmp w h q = refl
rename_at-fails tmp (entry n) w h q = cc
rename_at-fails (entry n) d w h q = refl

rename_at-moves :
    (p d : Place) (w : World) → (rename_at p d w).1 ≡ none → file (rename_at p d w).0 d ≡ file w p
unfolding rename_at
rename_at-moves tmp tmp w h = cc
rename_at-moves tmp (entry n) w h = rw ((same_iff n n).1 refl) refl
rename_at-moves (entry n) d w h = cc

rename_at-else : (p d q : Place) (w : World) → q ≢ p → q ≢ d → file (rename_at p d w).0 q ≡ file w q
unfolding rename_at
rename_at-else tmp tmp q w np nd = refl
rename_at-else tmp (entry n) tmp w np nd = elim (np refl) [ ]
rename_at-else tmp (entry n) (entry m) w np nd =
    elim (same m n) as (λ b. same m n ≡ b → (if b then w.stage else w.entries m) ≡ w.entries m) [
      | true ↦ λ e. elim (nd (ap entry ((same_iff m n).0 e))) [ ]
      | false ↦ λ e. refl
    ]
      refl
rename_at-else (entry n) d q w np nd = refl

remove_at-else :
    (p : Bytes) (q : Place) (w : World)
    → is_below p q ≡ false
    → file (remove_at (same p stage_name) w).0 q ≡ file w q
unfolding remove_at
remove_at-else p tmp w h = rw h refl
remove_at-else p (entry n) w h =
    elim (same p stage_name) as (λ b. file (remove_at b w).0 (entry n) ≡ w.entries n) [
      | true ↦ refl
      | false ↦ refl
    ]

remove_at-empties :
    (p : Bytes) (q : Place) (w : World)
    → is_below p q ≡ true
    → file (remove_at (same p stage_name) w).0 q ≡ none
unfolding remove_at
remove_at-empties p tmp w h = rw h refl
remove_at-empties p (entry n) w h = cc

make_at-new :
    (b : Bool) (f : FileState) {stage : Bytes}
    → make_at b f ≡ ok stage
    → (b ≡ true) × (f ≡ none) × (stage ≡ stage_name)
unfolding make_at
make_at-new true none h = (refl, refl, sym (ok-injective h))
make_at-new true (some x) h = cc
make_at-new false f h = cc

new_below :
    (stage : Bytes) (q : Place) (w : World)
    → w.stage ≡ none
    → is_below stage q ≡ true
    → file w q ≡ none
new_below stage tmp w h b = h
new_below stage (entry n) w h b = cc

dir-tmp_name : same (dir tmp_name) (codes "/t") ≡ false
unfolding dir compare_bytes clean up_to_slash parts_of render is_rooted push_all split_path push
    is_empty join_with
dir-tmp_name = refl

staged-tmp_name : is_below stage_name (place (staged stage_name)) ≡ true
unfolding compare_bytes join_path join_with is_empty clean parts_of render is_rooted push_all
    split_path push
staged-tmp_name = refl

place-outside :
    (path stage : Bytes) → same (dir path) (codes "/t") ≡ true → is_below stage (place path) ≡ false
place-outside path stage h =
    elim (same path tmp_name)
        as (λ b. same path tmp_name ≡ b → is_below stage (place_by b path) ≡ false) [
          | true ↦ λ e.
              let at = ap (λ p. same (dir p) (codes "/t")) ((same_iff path tmp_name).0 e) in
              let clash = sym h ∙ at ∙ dir-tmp_name in cc
          | false ↦ λ e. refl
        ]
      refl

pub as_documented : (h : ℕ) → IsDisk (disk machine (some h)) view
as_documented h = record {
  temp_files = λ d p w q. refl;
  temp_image = λ d p w. refl;
  temp_new = λ d p w made q below. new_below _ q w (make_at-new _ w.stage made).1 below;
  temp_inside = λ path p w {stage} made. place-outside path stage (make_at-new _ w.stage made).0;
  temp_below = λ d p w made.
      subst (λ s. is_below s (place (staged s)) ≡ true) (sym (make_at-new _ w.stage made).2)
        staged-tmp_name;
  vacuum_else = λ p w q. exec_at-else h (place p) q w;
  vacuum_copies = λ p w. exec_at-copies h (place p) w;
  chmod_else = λ p m w q. chmod_at-else (place p) q (file w (place p)) m w;
  chmod_sets = λ p m m' content w. chmod_at-sets (place p) (file w (place p)) m m' content w;
  rename_fails = λ p d w. rename_at-fails (place p) (place d) w;
  rename_moves = λ p d w. rename_at-moves (place p) (place d) w;
  rename_else = λ p d w q. rename_at-else (place p) (place d) q w;
  remove_else = λ p w q. remove_at-else p q w;
  remove_empties = λ p w e q. remove_at-empties p q w;
}
