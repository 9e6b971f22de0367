-- ===== src/Local/Federations/Invariant.antt =====
-- pkg/plugin/local/local.go: the federation methods keep a configuration well-formed.
use mathlib.Core.Path.{subst}
use cofidectl.Common.{
  ◌≡◌, ◌≢◌, refl, sym, ◌∙◌, ap, ◌⊎◌, inl, inr, String, ◌==◌, true, false, some, List, [], ◌∷◌, ◌++◌,
  arith, eq_iff, get_text, ne_of_test, is_some, filter, any, remove_first,
}
use cofidectl.Common.Errors.{Result, ok}
use cofidectl.Common.Keys.{
  All, All-map, All-not_any, All-append, All-remove_first, Unique-append, Unique-remove_first,
}
use cofidectl.Config.{get_trust_zone_by_id}
use cofidectl.Config.Messages.{Federation}
use cofidectl.Config.WellFormed.{WellFormed, federation_id, federation_pair}
use cofidectl.Config.WellFormed.Changes.{set_federations}
use cofidectl.Config.Loader.{Loader}
use cofidectl.Proto.{ProtoLib, IsProtoLib, clone_federation_lem}
use cofidectl.Local.{LocalDataSource, clone_all_lem}
use cofidectl.Local.Federations.{
  add_federation, destroy_federation, federation_has_id, federation_joins,
}

module _ {S : Type 0} (lib : ProtoLib) (laws : IsProtoLib lib) (loader : Loader S) where
  add_federation_outcome :
      (uid : Result String) (federation : Federation) (lds : LocalDataSource S)
      → let c = lds.config in
        let local = get_text federation.trust_zone_id in
        let remote = get_text federation.remote_trust_zone_id in
        let listed = filter (λ f. get_text f.trust_zone_id == local) c.federations in
        let c' = (add_federation lib loader uid federation lds).1.config in
        (c' ≡ c)
        ⊎ ((id : String) × (uid ≡ ok id)
            × (is_some (get_trust_zone_by_id c local) ≡ true)
            × (is_some (get_trust_zone_by_id c remote) ≡ true)
            × ((local == remote) ≡ false)
            × (any (federation_joins local remote) listed ≡ false)
            × (c' ≡ record c {
              federations = c.federations ++ record federation { id = some id } ∷ [];
            }))
  unfolding add_federation
  add_federation_outcome uid federation lds = ground (
    arith,
    clone_federation_lem lib laws federation,
    clone_all_lem _ (clone_federation_lem lib laws) (
        filter (λ f. get_text f.trust_zone_id == get_text federation.trust_zone_id)
          lds.config.federations),
  )

  destroy_federation_outcome :
      (id : String) (lds : LocalDataSource S)
      → let c = lds.config in
        let c' = (destroy_federation lib loader id lds).1.config in
        (c' ≡ c)
        ⊎ (c' ≡ record c { federations = remove_first (federation_has_id id) c.federations })
  unfolding destroy_federation
  destroy_federation_outcome id lds = ground arith

-- A search among the federations of one trust zone misses none that joins it.
pub any_listed :
    (local remote : String) (fs : List Federation)
    → any (federation_joins local remote) (filter (λ f. get_text f.trust_zone_id == local) fs)
      ≡ any (federation_joins local remote) fs
unfolding any filter
any_listed local remote [] = refl
any_listed local remote (f ∷ fs) = ground (arith, any_listed local remote fs)

pub other_pair :
    (local remote : String) (x : Federation)
    → federation_joins local remote x ≡ false
    → federation_pair x ≢ (local, remote)
other_pair local remote x h e = ground (
  arith,
  eq_iff (get_text x.trust_zone_id) local,
  eq_iff (get_text x.remote_trust_zone_id) remote,
  ap (λ (p : String × String). p.0) e,
  ap (λ (p : String × String). p.1) e,
)

module _ {S : Type 0} (lib : ProtoLib) (laws : IsProtoLib lib) (loader : Loader S) where
  -- Adding a federation keeps the configuration in memory well-formed, whether the call succeeds or
  -- fails, if the new UUID is no federation's id yet.
  pub add_federation-WellFormed :
      (uid : Result String) (federation : Federation) (lds : LocalDataSource S)
      → ((id : String) → uid ≡ ok id → All (λ x. federation_id x ≢ id) lds.config.federations)
      → WellFormed lds.config
      → WellFormed (add_federation lib loader uid federation lds).1.config
  unfolding get_trust_zone_by_id
  add_federation-WellFormed uid federation lds fresh w =
      elim (add_federation_outcome lib laws loader uid federation lds) [
        | inl same ↦ subst WellFormed (sym same) w
        | inr (id, made, zone, remote_zone, apart, unjoined, e) ↦ subst WellFormed (sym e) (
            set_federations w _ (record {
              ids = Unique-append federation_id _ _ w.federations.ids (fresh id made);
              pairs = Unique-append federation_pair _ _ w.federations.pairs (
                  All-map _ (λ x t. other_pair _ _ x t) _
                    (All-not_any _ _ (sym (any_listed _ _ lds.config.federations) ∙ unjoined)));
              joined =
                  All-append _ _ _ w.federations.joined
                    ((zone, remote_zone, ne_of_test _ _ apart), tt);
            }))
      ]

  -- Destroying a federation keeps the configuration in memory well-formed, whether the call succeeds
  -- or fails.
  pub destroy_federation-WellFormed :
      (id : String) (lds : LocalDataSource S)
      → WellFormed lds.config
      → WellFormed (destroy_federation lib loader id lds).1.config
  destroy_federation-WellFormed id lds w =
      elim (destroy_federation_outcome lib laws loader id lds) [
        | inl same ↦ subst WellFormed (sym same) w
        | inr e ↦ subst WellFormed (sym e) (
            set_federations w _ (record {
              ids = Unique-remove_first federation_id _ _ w.federations.ids;
              pairs = Unique-remove_first federation_pair _ _ w.federations.pairs;
              joined = All-remove_first _ _ _ w.federations.joined;
            }))
      ]
