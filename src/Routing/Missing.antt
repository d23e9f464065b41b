-- ===== src/Routing/Missing.antt =====
-- Which documents a passenger lacks.
use lume_tenant_api.Base.{
  String, Bool, not, ◌&&◌, List, [], ◌∷◌, ◌≡◌, refl, ap, ◌∙◌, arith, filter, map, any, includes,
  string_eq, ◌==◌,
}
use lume_tenant_api.Base.Sets.{distinct, includes-filter, includes-distinct}
use lume_tenant_api.Routing.Route.{RouteDocument, has_data, code_of, missing_required_documents}

-- Some document of that type has data.
abbrev supplied : List RouteDocument → String → Bool
supplied documents code = any (λ d. has_data d && code == code_of d) documents

includes-supplied :
    (documents : List RouteDocument) (code : String)
    → includes (map code_of (filter has_data documents)) code ≡ supplied documents code
includes-supplied [] code = refl
includes-supplied (d ∷ ds) code = ground (arith, includes-supplied ds code)

-- A document type is missing exactly when it is required and no document of that type has data.
includes-missing_required_documents :
    (required : List String) (documents : List RouteDocument) (code : String)
    → includes (missing_required_documents required documents) code
      ≡ (includes required code && not (supplied documents code))
unfolding missing_required_documents
includes-missing_required_documents required documents code =
    let held = map code_of (filter has_data documents) in
    includes-filter (λ c. not (includes (distinct held) c)) required code
    ∙ ap (λ b. includes required code && not b)
        (includes-distinct held code ∙ includes-supplied documents code)
