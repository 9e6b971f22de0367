-- ===== src/Helm/Providers/Laws.antt =====
-- internal/pkg/trustprovider/trustprovider.go and internal/pkg/federation/federation.go: when the Helm
-- values exist.
use cofidectl.Common.{◌≡◌, refl, String, Option, some, arith}
use cofidectl.Common.Errors.{ok}
use cofidectl.Helm.Providers.{
  ProviderValues, get_values, new_trust_provider, get_trust_provider_kind_from_profile,
}

-- The kind of trust provider that a profile gives is one that `NewTrustProvider` accepts, under
-- whatever name, and it keeps the kind.
profile_kind_accepted :
    (profile kind : String) (name : Option String)
    → get_trust_provider_kind_from_profile profile ≡ ok kind
    → (values : ProviderValues) × (new_trust_provider
          (some (record { name = name; kind = some kind }))
        ≡ ok values)
      × (values.kind ≡ kind)
unfolding get_trust_provider_kind_from_profile new_trust_provider get_values
profile_kind_accepted profile kind name h =
    let is_kubernetes : kind ≡ "kubernetes" = ground arith in rw is_kubernetes (_, refl, refl)
