-- ===== src/Host/Tools/History.antt =====
-- `resolve` of host/src/contract.ts against the history of publications.
use vivim_omega.Common.{
  String, ◌≡◌, refl, Option, none, some, List, [], ◌∷◌, ◌++◌, ◌==◌, eq_iff, arith, if◌then◌else◌,
  or_else, Bool-cases, inl, inr, ◌∙◌, ap,
}
use vivim_omega.Common.Dict
use vivim_omega.Common.Dict.{Dict, get-put}
use vivim_omega.Host.Tools.{GenerationPin, ToolRegistry, matches_range, publish, newest, resolve}

pub record Publication : Type 0 where
  pub name : String
  pub version : String
  pub impl : String

unfoldable pub publish_all : List Publication → ToolRegistry → ToolRegistry
publish_all [] t = t
publish_all (p ∷ ps) t = publish_all ps (publish p.name p.version p.impl t)

-- the last publication of the name whose version is in the range; `before` where there is none
unfoldable pub last_match :
    String → String → List Publication → Option GenerationPin → Option GenerationPin
last_match name range [] before = before
last_match name range (p ∷ ps) before = last_match name range ps (
    if p.name == name
    then (if matches_range p.version range
        then some (record { version = p.version; impl = p.impl })
        else before)
    else before)

newest-append :
    (range : String) (gs : List GenerationPin) (g : GenerationPin)
    → newest range (gs ++ g ∷ [])
      ≡ (if matches_range g.version range then some g else newest range gs)
unfolding newest
newest-append range [] g = refl
newest-append range (f ∷ gs) g = ground (arith, newest-append range gs g)

abbrev pub pin_of : Publication → GenerationPin
pin_of p = record { version = p.version; impl = p.impl }

resolve_or :
    (name range : String) (t : ToolRegistry)
    → resolve name range t ≡ newest range (or_else (Dict.get name t) [])
unfolding resolve newest
resolve_or name range t = ground arith

get-publish :
    (name : String) (p : Publication) (t : ToolRegistry)
    → or_else (Dict.get name (publish p.name p.version p.impl t)) [] ≡ (
        if p.name == name
        then or_else (Dict.get name t) [] ++ pin_of p ∷ []
        else or_else (Dict.get name t) [])
unfolding publish
get-publish name p t = ground (
  arith,
  get-put p.name name (or_else (Dict.get p.name t) [] ++ pin_of p ∷ []) t,
  eq_iff p.name name,
)

resolve-publish :
    (name range : String) (p : Publication) (t : ToolRegistry)
    → resolve name range (publish p.name p.version p.impl t) ≡ (
        if p.name == name
        then (if matches_range p.version range then some (pin_of p) else resolve name range t)
        else resolve name range t)
resolve-publish name range p t = elim (Bool-cases (p.name == name)) [
  | inl e ↦ rw e (
      cc (
        resolve_or name range (publish p.name p.version p.impl t),
        resolve_or name range t,
        rw e at (get-publish name p t),
        newest-append range (or_else (Dict.get name t) []) (pin_of p),
      ))
  | inr e ↦ rw e (
      cc (
        resolve_or name range (publish p.name p.version p.impl t),
        resolve_or name range t,
        rw e at (get-publish name p t),
      ))
]

resolve-publish_all :
    (name range : String) (ps : List Publication) (t : ToolRegistry)
    → resolve name range (publish_all ps t) ≡ last_match name range ps (resolve name range t)
unfolding publish_all last_match
resolve-publish_all name range [] t = refl
resolve-publish_all name range (p ∷ ps) t =
    resolve-publish_all name range ps (publish p.name p.version p.impl t)
    ∙ ap (last_match name range ps) (resolve-publish name range p t)

-- After any history of publications, a tool resolves to the last one of its name whose version is
-- in the caller's range, and to nothing where there is none.
pub resolve_history :
    (name range : String) (ps : List Publication)
    → resolve name range (publish_all ps []) ≡ last_match name range ps none
resolve_history name range ps = unfold resolve Dict.get in resolve-publish_all name range ps []
