-- ===== src/Parsing/Laws.antt =====
-- dvc/parsing/context.py: texts without expressions, `set`, and the tracking of used values.
use Prim.Native.String.{[], ◌∷◌}
use python_dvc.Base.{String, ◌≡◌, refl, Bool, Option, none, [], ◌∷◌, string_eq}
use python_dvc.Base.Result.{ok}
use python_dvc.Parsing.Nodes.{text, prim}
use python_dvc.Parsing.Interpolate.{
  char, expr, Template, template_of, get_matches, exact_match, whole_text, unescape,
}
use python_dvc.Parsing.Pieces.{whole_text-template_of}
use python_dvc.Parsing.Context.{Context, interpolate, resolve_template, resolve_str}

module _ (parse : String → Option String) where
  interpolate_plain :
      (t : Template) (ctx : Context)
      → get_matches t ≡ []
      → interpolate parse t ctx ≡ ok (whole_text t, ctx)
  unfolding interpolate get_matches whole_text
  interpolate_plain [] ctx h = refl
  interpolate_plain (char c ∷ ps) ctx h = rw (interpolate_plain ps ctx h) refl
  interpolate_plain (expr m ∷ ps) ctx h = cc

  no_exact : (t : Template) → get_matches t ≡ [] → exact_match t ≡ none
  unfolding get_matches
  no_exact [] h = refl
  no_exact (char c ∷ ps) h = refl
  no_exact (expr m ∷ []) h = cc
  no_exact (expr m ∷ (p ∷ ps)) h = refl

  -- A text without an expression stays as it is, up to the backslashes in front of `${`, and uses nothing of
  -- the context.
  pub resolve_plain :
      (unwrapped : Bool) (s : String) (ctx : Context)
      → get_matches (template_of s) ≡ []
      → resolve_str parse unwrapped s ctx ≡ ok (prim (text (unescape s)), ctx)
  unfolding resolve_str resolve_template
  resolve_plain unwrapped s ctx h =
      rw
        (
          no_exact (template_of s) h,
          interpolate_plain (template_of s) ctx h,
          whole_text-template_of s,
        )
        refl
