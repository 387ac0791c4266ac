-- ===== src/Config/Category.antt =====
-- pkg/config/categories.go: the category table. Go's `Category` is a string; here a category of the
-- table is a constructor, and `unlisted` is any other string, which the state file may hold.
use picolet.Prelude.{
  ℕ, String, Bool, true, false, Option, none, some, List, [], ◌∷◌, map, ◌==◌, if◌then◌else◌, leb,
}

pub data Category : Type 0 where
  network systemd volume container kube manifest file secret image build pod artifact : Category
  unlisted : String → Category

-- Where a category's files are deployed.
pub data Destination : Type 0 where
  dest_quadlet dest_systemd dest_data dest_secret : Destination

pub data Check : Type 0 where
  check_unsupported check_quadlet check_systemd check_manifest check_secret check_file : Check

pub data UnitNaming : Type 0 where
  no_unit generated_unit file_unit : UnitNaming

pub data HealthClass : Type 0 where
  health_none health_daemon health_report_only : HealthClass

pub data RestartPolicy : Type 0 where
  restart_none restart_changed restart_activate restart_rebuild : RestartPolicy

-- One row of the table.
pub record Spec : Type 0 where
  pub category : Category
  pub dest : Destination
  pub subdir : String
  pub path_helper : String
  pub check : Check
  pub apply_rank : ℕ
  pub convert_order : ℕ
  pub health : HealthClass
  pub restart : RestartPolicy
  pub prefill : Bool
  pub pre_convert : Bool
  pub unit_naming : UnitNaming

-- A Quadlet row: no directory of its own, and Podman generates its unit.
abbrev quadlet_row : Category → Check → ℕ → ℕ → HealthClass → RestartPolicy → Bool → Bool → Spec
quadlet_row c check rank order health restart prefill pre_convert = record {
  category = c;
  dest = dest_quadlet;
  subdir = "";
  path_helper = "";
  check = check;
  apply_rank = rank;
  convert_order = order;
  health = health;
  restart = restart;
  prefill = prefill;
  pre_convert = pre_convert;
  unit_naming = generated_unit;
}

-- A row selected by its directory: no conversion, no unit, no restart.
abbrev directory_row : Category → Destination → String → String → Check → ℕ → Spec
directory_row c dest subdir helper check rank = record {
  category = c;
  dest = dest;
  subdir = subdir;
  path_helper = helper;
  check = check;
  apply_rank = rank;
  convert_order = 0;
  health = health_none;
  restart = restart_none;
  prefill = false;
  pre_convert = false;
  unit_naming = no_unit;
}

abbrev systemd_row : Spec
systemd_row = record {
  category = systemd;
  dest = dest_systemd;
  subdir = "";
  path_helper = "";
  check = check_systemd;
  apply_rank = 60;
  convert_order = 0;
  health = health_daemon;
  restart = restart_activate;
  prefill = false;
  pre_convert = false;
  unit_naming = file_unit;
}

-- The table, in resolution order.
unfoldable pub categories : List Spec
categories =
    quadlet_row network check_quadlet 10 2 health_daemon restart_changed false true
    ∷ systemd_row
    ∷ quadlet_row volume check_quadlet 20 2 health_daemon restart_changed false true
    ∷ quadlet_row image check_quadlet 30 1 health_report_only restart_changed false true
    ∷ quadlet_row build check_quadlet 40 3 health_report_only restart_rebuild true false
    ∷ quadlet_row container check_quadlet 100 4 health_daemon restart_changed true true
    ∷ quadlet_row kube check_quadlet 110 4 health_daemon restart_changed false true
    ∷ quadlet_row pod check_quadlet 90 5 health_daemon restart_changed true true
    ∷ directory_row manifest dest_data "manifests" "manifestPath" check_manifest 70
    ∷ directory_row file dest_data "files" "filePath" check_file 80
    ∷ directory_row secret dest_secret "secrets" "" check_secret 50
    ∷ quadlet_row artifact check_unsupported 35 1 health_report_only restart_changed false true
    ∷ []

-- `==` on category strings.
unfoldable pub same_category : Category → Category → Bool
same_category network network = true
same_category systemd systemd = true
same_category volume volume = true
same_category container container = true
same_category kube kube = true
same_category manifest manifest = true
same_category file file = true
same_category secret secret = true
same_category image image = true
same_category build build = true
same_category pod pod = true
same_category artifact artifact = true
same_category (unlisted s) (unlisted t) = s == t
same_category _ _ = false

find_spec : Category → List Spec → Option Spec
find_spec c [] = none
find_spec c (s ∷ rest) = if same_category c s.category then some s else find_spec c rest

-- The table row of a category, if the table has one.
unfoldable pub spec_for : Category → Option Spec
unfolding find_spec categories same_category
spec_for c = find_spec c categories

abbrev dest_is_data : Option Spec → Bool
dest_is_data (some s) = elim s.dest [ dest_data ↦ true | _ ↦ false ]
dest_is_data none = false

-- Files of these categories carry a path below the category's data directory.
unfoldable pub uses_rel_path : Category → Bool
unfolding spec_for
uses_rel_path c = dest_is_data (spec_for c)

-- Insertion of a row behind the rows of its rank.
insert_by_rank : Spec → List Spec → List Spec
insert_by_rank s [] = s ∷ []
insert_by_rank s (t ∷ rest) =
    if leb s.apply_rank t.apply_rank then s ∷ t ∷ rest else t ∷ insert_by_rank s rest

sort_by_rank : List Spec → List Spec
unfolding insert_by_rank
sort_by_rank [] = []
sort_by_rank (s ∷ rest) = insert_by_rank s (sort_by_rank rest)

-- Every category, ordered by `apply_rank`.
unfoldable pub apply_order : List Category
unfolding sort_by_rank categories
apply_order = map (λ s. s.category) (sort_by_rank categories)
