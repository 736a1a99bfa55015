-- ===== src/Entities/Lookup.antt =====
-- Resolving aliases and uids (mgmtd/src/db/entity.rs).
use beegfs_rust.Prelude.{
  ℕ, ◌==◌, true, false, some, List, [], ◌∷◌, All, ◌≡◌, ◌↔◌, refl, subst, arith, Bool-cases, inl,
  inr,
}
use beegfs_rust.Entities.{Entity, Entities, same_bytes, get_uid, get_alias}
use beegfs_rust.Entities.Unique.{differ, Differ, Reach, Reach-IsUnique}

pub same_bytes_eq : (a b : List ℕ) → same_bytes a b ≡ true → a ≡ b
unfolding same_bytes
same_bytes_eq [] [] e = refl
same_bytes_eq [] (b ∷ bs) e = absurd (ground (arith, e))
same_bytes_eq (a ∷ as') [] e = absurd (ground (arith, e))
same_bytes_eq (a ∷ as') (b ∷ bs) e =
    let head : a ≡ b = ground (arith, e) in cc (head, same_bytes_eq as' bs (ground (arith, e)))

pub same_bytes_refl : (a : List ℕ) → same_bytes a a ≡ true
unfolding same_bytes
same_bytes_refl [] = refl
same_bytes_refl (a ∷ as') = ground (arith, same_bytes_refl as')

pub other_uid :
    (alias : List ℕ) (uid : ℕ) (x : Entity) (es : List Entity)
    → All (λ f. differ x f ≡ true) es
    → get_uid alias es ≡ some uid
    → (x.uid == uid) ≡ false
unfolding get_uid
other_uid alias uid x [] h e = absurd (ground (arith, e))
other_uid alias uid x (f ∷ es) h e = elim (Bool-cases (same_bytes f.alias alias)) [
  | inl p ↦ ground (arith, p, e, h.0)
  | inr p ↦ other_uid alias uid x es h.1 (ground (arith, p, e))
]

pub other_alias :
    (alias : List ℕ) (uid : ℕ) (x : Entity) (es : List Entity)
    → All (λ f. differ x f ≡ true) es
    → get_alias uid es ≡ some alias
    → same_bytes x.alias alias ≡ false
unfolding get_alias
other_alias alias uid x [] h e = absurd (ground (arith, e))
other_alias alias uid x (f ∷ es) h e = elim (Bool-cases (f.uid == uid)) [
  | inl p ↦
      let same : f.alias ≡ alias = ground (arith, p, e) in
      subst (λ a. same_bytes x.alias a ≡ false) same (ground (arith, h.0))
  | inr p ↦ other_alias alias uid x es h.1 (ground (arith, p, e))
]

pub uid_to_alias :
    (alias : List ℕ) (uid : ℕ) (es : List Entity)
    → Differ es
    → get_uid alias es ≡ some uid
    → get_alias uid es ≡ some alias
unfolding get_uid get_alias
uid_to_alias alias uid [] d e = absurd (ground (arith, e))
uid_to_alias alias uid (x ∷ es) d e = elim (Bool-cases (same_bytes x.alias alias)) [
  | inl p ↦ ground (arith, p, e, same_bytes_eq x.alias alias p)
  | inr p ↦
      let later : get_uid alias es ≡ some uid = ground (arith, p, e) in
      ground (arith, uid_to_alias alias uid es d.1 later, other_uid alias uid x es d.0 later)
]

pub alias_to_uid :
    (alias : List ℕ) (uid : ℕ) (es : List Entity)
    → Differ es
    → get_alias uid es ≡ some alias
    → get_uid alias es ≡ some uid
unfolding get_uid get_alias
alias_to_uid alias uid [] d e = absurd (ground (arith, e))
alias_to_uid alias uid (x ∷ es) d e = elim (Bool-cases (x.uid == uid)) [
  | inl p ↦
      let same : x.alias ≡ alias = ground (arith, p, e) in
      let own : same_bytes x.alias alias ≡ true =
        subst (λ a. same_bytes x.alias a ≡ true) same (same_bytes_refl x.alias) in
      ground (arith, p, own)
  | inr p ↦
      let later : get_alias uid es ≡ some alias = ground (arith, p, e) in
      ground (arith, alias_to_uid alias uid es d.1 later, other_alias alias uid x es d.0 later)
]

-- After any sequence of insertions, changes of aliases and deletions, an alias resolves to a uid exactly if
-- the uid resolves to that alias.
pub get_uid-get_alias :
    (alias : List ℕ) (uid : ℕ) {s : Entities}
    → Reach s
    → (get_uid alias s.rows ≡ some uid) ↔ (get_alias uid s.rows ≡ some alias)
get_uid-get_alias alias uid {s = s} r =
    let d = (Reach-IsUnique r).different in
    (λ e. uid_to_alias alias uid s.rows d e, λ e. alias_to_uid alias uid s.rows d e)
