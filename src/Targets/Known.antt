-- ===== src/Targets/Known.antt =====
-- src/browser_runtime/targets.rs: the active target is one that is known, and every session belongs
-- to one.
use hyprfast.Base.{
  String, ◌≡◌, ◌≢◌, refl, ◌∙◌, ap, false, not, Option, none, some, [], ◌∷◌, ◌==◌, string_eq, inl,
  inr, Bool-cases, Option-cases, All, All-imp, keep, beq_refl,
}
use hyprfast.Base.Map
use hyprfast.Base.Map.{Map}
use hyprfast.Base.Text.{is_some}
use hyprfast.Targets.{TargetRecord, BrowserTargetManager, first_attached}

abbrev pub Known : String → Map String TargetRecord → Type 0
Known id targets = (r : TargetRecord) × (Map.get id targets ≡ some r)

abbrev pub IsActive : Option String → Map String TargetRecord → Type 0
IsActive none targets = Unit
IsActive (some id) targets = Known id targets

abbrev pub AllKnown : Map String String → Map String TargetRecord → Type 0
AllKnown sessions targets = All (λ e. Known e.1 targets) sessions

abbrev pub IsKnown : BrowserTargetManager → Type 0
IsKnown m = IsActive m.active_target_id m.targets × AllKnown m.session_to_target m.targets

-- What is known of one map is known of another.
abbrev pub Keeps : Map String TargetRecord → Map String TargetRecord → Type 0
Keeps before after = (id : String) → Known id before → Known id after

pub insert-Keeps :
    (k : String) (r : TargetRecord) (t : Map String TargetRecord) → Keeps t (Map.insert k r t)
insert-Keeps k r t id known = elim (Bool-cases (k == id)) [
  | inl q ↦ (r, Map.get-insert id k r t ∙ rw q refl)
  | inr q ↦ (known.0, Map.get-insert id k r t ∙ rw q known.1)
]

pub update-Keeps :
    (k : String) (f : TargetRecord → TargetRecord) (t : Map String TargetRecord)
    → Keeps t (Map.update k f t)
unfolding Map.update
update-Keeps k f t id known = elim (Option-cases (Map.get k t)) [
  | inl n ↦ rw (n, Map.update) known
  | inr found ↦ rw (found.1, Map.update) (insert-Keeps k (f found.0) t id known)
]

pub upsert-Keeps :
    (k : String) (f : TargetRecord → TargetRecord) (r : TargetRecord) (t : Map String TargetRecord)
    → Keeps t (Map.upsert k f r t)
unfolding Map.upsert
upsert-Keeps k f r t id known = elim (Option-cases (Map.get k t)) [
  | inl n ↦ rw (n, Map.upsert) (insert-Keeps k r t id known)
  | inr found ↦ rw (found.1, Map.upsert) (insert-Keeps k (f found.0) t id known)
]

pub upsert-Known :
    (k : String) (f : TargetRecord → TargetRecord) (r : TargetRecord) (t : Map String TargetRecord)
    → Known k (Map.upsert k f r t)
unfolding Map.upsert
upsert-Known k f r t = elim (Option-cases (Map.get k t)) [
  | inl n ↦ rw (n, Map.upsert) (r, Map.get-insert_same k r t)
  | inr found ↦ rw (found.1, Map.upsert) (f found.0, Map.get-insert_same k (f found.0) t)
]

pub remove-Known :
    (k id : String) (t : Map String TargetRecord)
    → (id == k) ≡ false
    → Known id t
    → Known id (Map.remove k t)
remove-Known k id t h known = (known.0, Map.get-remove_other id k t differs ∙ known.1)
  where
    differs : id ≢ k
    differs e = cc (h, ap (λ j. j == k) e, beq_refl k)

pub AllKnown-Keeps :
    (sessions : Map String String) (s t : Map String TargetRecord)
    → Keeps s t
    → AllKnown sessions s
    → AllKnown sessions t
AllKnown-Keeps sessions s t k a = All-imp _ _ sessions (λ e. k e.1) a

pub IsActive-Keeps :
    (o : Option String) (s t : Map String TargetRecord) → Keeps s t → IsActive o s → IsActive o t
IsActive-Keeps none s t k a = tt
IsActive-Keeps (some id) s t k a = k id a

pub first_key-IsActive : (t : Map String TargetRecord) → IsActive (Map.first_key t) t
unfolding Map.get
first_key-IsActive [] = tt
first_key-IsActive ((id, r) ∷ t) = (r, rw (beq_refl id) refl)

cons-Keeps : (k : String) (r : TargetRecord) (t : Map String TargetRecord) → Keeps t ((k, r) ∷ t)
unfolding Map.get
cons-Keeps k r t id known = elim (Bool-cases (k == id)) [
  | inl q ↦ (r, rw q refl)
  | inr q ↦ (known.0, rw q known.1)
]

pub first_attached-IsActive : (t : Map String TargetRecord) → IsActive (first_attached t) t
unfolding first_attached Map.get
first_attached-IsActive [] = tt
first_attached-IsActive ((id, r) ∷ t) = elim (Bool-cases (is_some r.session_id)) [
  | inl e ↦ simp e (r, rw (beq_refl id) refl)
  | inr e ↦ simp e (
      IsActive-Keeps (first_attached t) t ((id, r) ∷ t) (cons-Keeps id r t)
        (first_attached-IsActive t))
]

pub remove-AllKnown :
    (session : String) (sessions : Map String String) (t : Map String TargetRecord)
    → AllKnown sessions t
    → AllKnown (Map.remove session sessions) t
unfolding Map.remove
remove-AllKnown session [] t a = tt
remove-AllKnown session ((s, id) ∷ rest) t a = elim (Bool-cases (s == session)) [
  | inl e ↦ rw e (remove-AllKnown session rest t a.1)
  | inr e ↦ rw e (a.0, remove-AllKnown session rest t a.1)
]

pub insert-AllKnown :
    (session id : String) (sessions : Map String String) (t : Map String TargetRecord)
    → Known id t
    → AllKnown sessions t
    → AllKnown (Map.insert session id sessions) t
unfolding Map.insert
insert-AllKnown session id [] t k a = (k, tt)
insert-AllKnown session id ((s, j) ∷ rest) t k a = elim (Bool-cases (s == session)) [
  | inl e ↦ rw e (k, a.1)
  | inr e ↦ rw e (a.0, insert-AllKnown session id rest t k a.1)
]

-- The sessions of a target that goes are forgotten, so the others stay known.
pub drop-AllKnown :
    (gone : String) (sessions : Map String String) (t : Map String TargetRecord)
    → AllKnown sessions t
    → AllKnown (keep (λ e. not (e.1 == gone)) sessions) (Map.remove gone t)
drop-AllKnown gone [] t a = tt
drop-AllKnown gone ((s, id) ∷ rest) t a = elim (Bool-cases (id == gone)) [
  | inl e ↦ rw e (drop-AllKnown gone rest t a.1)
  | inr e ↦ rw e (remove-Known gone id t e a.0, drop-AllKnown gone rest t a.1)
]
