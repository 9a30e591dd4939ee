-- ===== src/Consequence/Consistent.antt =====
-- The consistency of two journals: what a projection needs, stated without the code.
pub mod Roots
pub mod Links
pub mod Outcomes
pub mod Exact
use e_r_i_i.Prelude.{
  ◌≡◌, refl, ap, sym, ◌∙◌, ◌≢◌, inl, inr, String, List, [], ◌∷◌, ◌++◌, Bool, true, false, ◌&&◌,
  Option, none, some, arith,
}
use mathlib.Core.Path.{subst}
use e_r_i_i.Prelude.Dict.{lookup, lookup-nil, lookup-insert}
use e_r_i_i.Prelude.Distinct.{first}
use e_r_i_i.Prelude.Equality.{
  ◌==◌, ◌!=◌, Bool-cases, Option-cases, pair_eq, string_eq, if◌then◌else◌,
}
use e_r_i_i.Prelude.Lists.{Has, here, there, All, All-Has}
use e_r_i_i.Prelude.Order.{pair_ord}
use e_r_i_i.Prelude.Result.{ok, err, ◌>>=◌, >>=-eq-ok, ok-injective}
use e_r_i_i.Prelude.Sort.{sorted, Has-sorted, sorted-Has}
use e_r_i_i.Prelude.Text.{string_ord}
use e_r_i_i.Consequence.Types.{
  RelationshipConsequence, NarrativeTensionLink, NarrativeTensionOutcome,
  NarrativeTensionProjection, unaddressed, superseded, same_consequence_payload, same_link_payload,
  tension_outcome_eq, effects_eq,
}
use e_r_i_i.Consequence.Project.{
  Key, consequence_key, tension_key, link_key, target_key, is_terminal,
}
use e_r_i_i.Consequence.Replay.{Holds, Holds-root, Holds-root_self, same_payload_key}
use e_r_i_i.Consequence.Rounds.{
  Applied, Tracks, apply_link-Applied, apply_link_hit, apply_link_miss, links_for_hit,
  links_for_miss,
}
use e_r_i_i.Consequence.Spec.{links_for, roots_of, updates_of}

-- After a terminal outcome only `superseded` follows.
abbrev pub NeverReopens : NarrativeTensionOutcome → List NarrativeTensionLink → Type 0
NeverReopens o [] = Unit
NeverReopens o (l ∷ ls) =
    (is_terminal o ≡ true → l.outcome ≡ superseded) × NeverReopens l.outcome ls

-- The link names a consequence that counts, and its tension.
abbrev pub HasRoot : List RelationshipConsequence → NarrativeTensionLink → Type 0
HasRoot roots l =
    (c : RelationshipConsequence) × (first consequence_key (target_key l) roots ≡ some c)
    × (c.tension_id ≡ l.tension_id)

pub record IsConsistent (cs : List RelationshipConsequence) (ls : List NarrativeTensionLink)
    : Type 0 where
  -- one identity, one payload
  pub payloads :
      (a b : RelationshipConsequence)
      → Has a cs
      → Has b cs
      → consequence_key a ≡ consequence_key b
      → same_consequence_payload a b ≡ true
  -- one tension, one consequence
  pub tensions :
      (a b : RelationshipConsequence)
      → Has a cs
      → Has b cs
      → tension_key a ≡ tension_key b
      → consequence_key a ≡ consequence_key b
  pub link_payloads :
      (l m : NarrativeTensionLink)
      → Has l ls
      → Has m ls
      → link_key l ≡ link_key m
      → same_link_payload l m ≡ true
  pub targets : All (HasRoot (roots_of cs)) (updates_of ls)
  pub settled :
      (c : RelationshipConsequence)
      → Has c (roots_of cs)
      → NeverReopens unaddressed (links_for (consequence_key c) (updates_of ls))
