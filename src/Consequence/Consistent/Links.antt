-- ===== src/Consequence/Consistent/Links.antt =====
-- The second loop: it ends if and only if the links of one identity agree.
use e_r_i_i.Prelude.{◌≡◌, refl, sym, inl, inr, List, [], ◌∷◌, true, some, arith}
use e_r_i_i.Prelude.Dict.{lookup, lookup-nil, lookup-insert}
use e_r_i_i.Prelude.Equality.{Option-cases, pair_eq, string_eq}
use e_r_i_i.Prelude.Lists.{Has, here, there}
use e_r_i_i.Prelude.Order.{pair_ord}
use e_r_i_i.Prelude.Result.{ok, >>=-eq-ok, ok-injective}
use e_r_i_i.Prelude.Text.{string_ord}
use e_r_i_i.Consequence.Types.{
  NarrativeTensionLink, same_link_payload, tension_outcome_eq, effects_eq,
}
use e_r_i_i.Consequence.Project.{Key, link_key, Links, no_links, add_link, admit_link, admit_all}

pub record HoldsLink (s : Links) (l : NarrativeTensionLink) : Type 0 where
  pub at : NarrativeTensionLink
  pub found : lookup (link_key l) s.links_by_key ≡ some at
  pub same : same_link_payload at l ≡ true

same_link_payload_refl : (l : NarrativeTensionLink) → same_link_payload l l ≡ true
unfolding same_link_payload
same_link_payload_refl l = ground arith

link_payloads_agree :
    (d l m : NarrativeTensionLink)
    → same_link_payload d l ≡ true
    → same_link_payload d m ≡ true
    → same_link_payload l m ≡ true
unfolding same_link_payload
link_payloads_agree d l m h k = ground arith

HoldsLink-admit :
    (s : Links) (m l : NarrativeTensionLink) {s' : Links}
    → admit_link s m ≡ ok s'
    → HoldsLink s l
    → HoldsLink s' l
unfolding admit_link
HoldsLink-admit s m l e h = record {
  at = h.at;
  found = ground (arith, h.found, lookup-insert (link_key l) (link_key m) m s.links_by_key);
  same = h.same;
}

HoldsLink-admit_self :
    (s : Links) (l : NarrativeTensionLink) {s' : Links} → admit_link s l ≡ ok s' → HoldsLink s' l
unfolding admit_link
HoldsLink-admit_self s l e = elim (Option-cases (lookup (link_key l) s.links_by_key)) [
  | inl new ↦ record {
    at = l;
    found = ground (arith, lookup-insert (link_key l) (link_key l) l s.links_by_key);
    same = same_link_payload_refl l;
  }
  | inr (d, old) ↦ record { at = d; found = ground arith; same = ground arith }
]

admit_all-HoldsLink :
    (s : Links) (ls : List NarrativeTensionLink) {s' : Links} (l : NarrativeTensionLink)
    → admit_all s ls ≡ ok s'
    → HoldsLink s l
    → HoldsLink s' l
unfolding admit_all
admit_all-HoldsLink s [] l e h = rw (← ok-injective e) h
admit_all-HoldsLink s (m ∷ ls) l e h =
    let (t, e1, e2) = >>=-eq-ok (admit_link s m) (λ u. admit_all u ls) e in
    admit_all-HoldsLink t ls l e2 (HoldsLink-admit s m l e1 h)

pub admit_all-HoldsLink_each :
    (s : Links) (ls : List NarrativeTensionLink) {s' : Links} (l : NarrativeTensionLink)
    → admit_all s ls ≡ ok s'
    → Has l ls
    → HoldsLink s' l
unfolding admit_all
admit_all-HoldsLink_each s [] l e m = elim m [ ]
admit_all-HoldsLink_each s (k ∷ ls) l e (here p) =
    let (t, e1, e2) = >>=-eq-ok (admit_link s k) (λ u. admit_all u ls) e in
    rw p (admit_all-HoldsLink t ls k e2 (HoldsLink-admit_self s k e1))
admit_all-HoldsLink_each s (k ∷ ls) l e (there m) =
    let (t, e1, e2) = >>=-eq-ok (admit_link s k) (λ u. admit_all u ls) e in
    admit_all-HoldsLink_each t ls l e2 m

pub admit_all-payloads :
    (s : Links) (l m : NarrativeTensionLink)
    → HoldsLink s l
    → HoldsLink s m
    → link_key l ≡ link_key m
    → same_link_payload l m ≡ true
admit_all-payloads s l m h k e =
    let p : h.at ≡ k.at = ground (arith, h.found, k.found) in
    link_payloads_agree h.at l m h.same (rw p k.same)

-- What the loop keeps comes from the journal `all`.
abbrev LinksFrom : List NarrativeTensionLink → Links → Type 0
LinksFrom all s =
    (k : Key) (d : NarrativeTensionLink)
    → lookup k s.links_by_key ≡ some d
    → Has d all × (link_key d ≡ k)

module _ (all : List NarrativeTensionLink)
    (payloads : (l m : NarrativeTensionLink)
      → Has l all
      → Has m all
      → link_key l ≡ link_key m
      → same_link_payload l m ≡ true) where
  add_link-LinksFrom :
      (s : Links) (l : NarrativeTensionLink)
      → LinksFrom all s
      → Has l all
      → LinksFrom all (add_link s l)
  add_link-LinksFrom s l h m k d e = go (pair_eq.dec k (link_key l))
    where
      go : Dec (k ≡ link_key l) → Has d all × (link_key d ≡ k)
      go (yes p) =
          let q : l ≡ d = ground (arith, lookup-insert k (link_key l) l s.links_by_key) in
          (rw (← q) m, rw (← q) (sym p))
      go (no n) = h k d (ground (arith, lookup-insert k (link_key l) l s.links_by_key))

  admit_link_total :
      (s : Links) (l : NarrativeTensionLink)
      → LinksFrom all s
      → Has l all
      → (s' : Links) × (admit_link s l ≡ ok s') × LinksFrom all s'
  unfolding admit_link
  admit_link_total s l h m = elim (Option-cases (lookup (link_key l) s.links_by_key)) [
    | inr (d, old) ↦
        let (md, kd) = h (link_key l) d old in (s, ground (arith, payloads d l md m kd), h)
    | inl new ↦ (add_link s l, ground arith, add_link-LinksFrom s l h m)
  ]

  admit_all_total :
      (s : Links) (ls : List NarrativeTensionLink)
      → LinksFrom all s
      → ((l : NarrativeTensionLink) → Has l ls → Has l all)
      → (s' : Links) × (admit_all s ls ≡ ok s')
  unfolding admit_all
  admit_all_total s [] h sub = (s, refl)
  admit_all_total s (l ∷ ls) h sub =
      let (t, e, ht) = admit_link_total s l h (sub l (here refl)) in
      let (u, f) = admit_all_total t ls ht (λ d m. sub d (there m)) in (u, rw e f)

-- The second loop ends if the links of one identity agree.
pub admit_all_ends :
    (all : List NarrativeTensionLink)
    → ((l m : NarrativeTensionLink)
        → Has l all
        → Has m all
        → link_key l ≡ link_key m
        → same_link_payload l m ≡ true)
    → (s' : Links) × (admit_all no_links all ≡ ok s')
admit_all_ends all payloads =
    admit_all_total all payloads no_links all
      (λ k d e. cc (lookup-nil {V = NarrativeTensionLink} k)) (λ l m. m)
