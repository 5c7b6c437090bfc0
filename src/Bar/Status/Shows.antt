-- ===== src/Bar/Status/Shows.antt =====
-- swayrbar/src/bar.rs: every status prints what the modules have cached, whatever happens outside.
use mathlib.Core.List.{append_assoc, append-nil}
use swayr.Base.{
  suc, length, All, sym, ◌∙◌, ap, ◌≡◌, refl, Option, List, [], ◌∷◌, ◌++◌, map, Outcome, ret, panic,
}
use swayr.Base.Exec.{bind_inv, continue}
use swayr.Bar.Module.{NameInstanceAndReason, Block}
use swayr.Bar.Outside.{line, Crates, World, status}
use swayr.Bar.Quiet.{Same, Post}
use swayr.Bar.Status.{
  BarModule, get_config, build, build_all, generate_status_1, status_loop, generate_status,
}
use swayr.Bar.Status.Laws.{shown}
use swayr.Bar.Status.Blocks.{IsShown, AreShown, build-Quiet, build_all-Quiet}

module _ {c : Crates} where
  -- A status that returns has printed one line more, the texts that the modules then have cached, and
  -- has started no command of a click; the modules are those of before, in order, with their configurations.
  generate_status_1-shows :
      (mods mods' : List (BarModule c)) (nai : Option NameInstanceAndReason) (w w' : World c)
      → generate_status_1 mods nai w ≡ (ret mods', w')
      → (w'.output ≡ w.output ++ status (map shown mods') ∷ [])
        × (w'.ran ≡ w.ran)
        × (map get_config mods' ≡ map get_config mods)
  unfolding generate_status_1
  generate_status_1-shows mods mods' nai w w' e =
      go (build_all mods nai w) ((build_all-Quiet mods nai).holds w) e
    where
      go :
          (x : Outcome (List (BarModule c) × List Block) × World c)
          → Same w x.1 × Post (AreShown mods) x.0
          → continue x.0 (λ r v. (ret r.0, record v { output = v.output ++ status r.1 ∷ [] })) x.1
            ≡ (ret mods', w')
          → (w'.output ≡ w.output ++ status (map shown mods') ∷ [])
            × (w'.ran ≡ w.ran)
            × (map get_config mods' ≡ map get_config mods)
      go (ret r, v) (s, p) e = (cc, cc, cc)
      go (panic m, v) (s, p) e = cc

-- Each module in turn is built for the event, from `w` on, and its block shows the text that it has cached
-- behind that: the modules that result, and the world then.
abbrev pub Rebuilt :
    {c : Crates}
    → List (BarModule c)
    → Option NameInstanceAndReason
    → World c
    → List (BarModule c)
    → World c
    → Type 0
Rebuilt [] ev w ms v = (ms ≡ []) × (w ≡ v)
Rebuilt {c} (m ∷ mods) ev w ms v =
    (m' : BarModule c) × (ms' : List (BarModule c)) × (u : World c) × (build m ev w
      ≡ (ret (m', shown m'), u))
    × Rebuilt mods ev u ms' v
    × (ms ≡ m' ∷ ms')

abbrev with_status : {c : Crates} → List (BarModule c) → World c → World c
with_status ms v = record v { output = v.output ++ status (map shown ms) ∷ [] }

-- The modules behind each of the events, where those behind one event are what the next one finds.
abbrev pub Chain :
    {c : Crates}
    → List (BarModule c)
    → List (Option NameInstanceAndReason)
    → World c
    → List (List (BarModule c))
    → List (BarModule c)
    → World c
    → Type 0
Chain mods [] w shots mods' w' = (shots ≡ []) × (mods ≡ mods') × (w ≡ w')
Chain {c} mods (ev ∷ l) w shots mods' w' =
    (ms : List (BarModule c)) × (rest : List (List (BarModule c))) × (v : World c) × Rebuilt mods ev
      w ms v
    × Chain ms l (with_status ms v) rest mods' w'
    × (shots ≡ ms ∷ rest)

-- What the statuses for some events have printed: one for each, of the modules as that event left them.
pub record Shots {c : Crates} (mods : List (BarModule c)) (l : List (Option NameInstanceAndReason))
    (w : World c) (mods' : List (BarModule c)) (w' : World c) : Type 0 where
  pub shots : List (List (BarModule c))
  pub chain : Chain mods l w shots mods' w'
  pub one_each : length shots ≡ length l
  pub configured : All (λ ms. map get_config ms ≡ map get_config mods) shots
  pub printed : w'.output ≡ w.output ++ map (λ ms. status (map shown ms)) shots
  pub not_ran : w'.ran ≡ w.ran

module _ {c : Crates} where
  build-shown :
      (m : BarModule c) (ev : Option NameInstanceAndReason) (w u : World c)
      (x : BarModule c × Block)
      → build m ev w ≡ (ret x, u)
      → build m ev w ≡ (ret (x.0, shown x.0), u)
  build-shown m ev w u x e = go (build m ev w) ((build-Quiet m ev).holds w) e
    where
      go :
          (o : Outcome (BarModule c × Block) × World c)
          → Same w o.1 × Post (IsShown m) o.0
          → o ≡ (ret x, u)
          → o ≡ (ret (x.0, shown x.0), u)
      go (ret r, v) (s, p) e = cc
      go (panic r, v) (s, p) e = cc

  build_all-shown :
      (mods : List (BarModule c)) (ev : Option NameInstanceAndReason) (w v : World c)
      (r : List (BarModule c) × List Block)
      → build_all mods ev w ≡ (ret r, v)
      → r.1 ≡ map shown r.0
  build_all-shown mods ev w v r e = go (build_all mods ev w) ((build_all-Quiet mods ev).holds w) e
    where
      go :
          (o : Outcome (List (BarModule c) × List Block) × World c)
          → Same w o.1 × Post (AreShown mods) o.0
          → o ≡ (ret r, v)
          → r.1 ≡ map shown r.0
      go (ret q, v) (s, p) e = cc
      go (panic q, v) (s, p) e = cc

  -- The same, with the results named by equations.
  Rebuilt-of :
      (mods : List (BarModule c)) (ev : Option NameInstanceAndReason) (w v v' : World c)
      (ms ms' : List (BarModule c))
      → Rebuilt mods ev w ms v
      → ms ≡ ms'
      → v ≡ v'
      → Rebuilt mods ev w ms' v'
  Rebuilt-of [] ev w v v' ms ms' h e f = (cc, cc)
  Rebuilt-of (m ∷ mods) ev w v v' ms ms' (m', rest, u, built, more, both) e f =
      (m', rest, u, built, Rebuilt-of mods ev u v v' rest rest more refl f, cc)

  build_all-Rebuilt :
      (mods : List (BarModule c)) (ev : Option NameInstanceAndReason) (w v : World c)
      (r : List (BarModule c) × List Block)
      → build_all mods ev w ≡ (ret r, v)
      → Rebuilt mods ev w r.0 v
  unfolding build_all
  build_all-Rebuilt [] ev w v r e = (cc, cc)
  build_all-Rebuilt (m ∷ mods) ev w v r e =
      let (x, u, built, more) = bind_inv (build m ev) _ w e in
      let (rest, u', others, done) = bind_inv (build_all mods ev) _ u more in
      let ih = build_all-Rebuilt mods ev u u' rest others in
      let end : u' ≡ v = ap (λ o. o.1) done in
      let two : ret (x.0 ∷ rest.0, x.1 ∷ rest.1) ≡ ret r = ap (λ o. o.0) done in
      (
        x.0,
        rest.0,
        u,
        build-shown m ev w u x built,
        Rebuilt-of mods ev u u' v rest.0 rest.0 ih refl end,
        cc,
      )

  configured_trans :
      (mods mods' : List (BarModule c)) (l : List (List (BarModule c)))
      → map get_config mods' ≡ map get_config mods
      → All (λ ms. map get_config ms ≡ map get_config mods') l
      → All (λ ms. map get_config ms ≡ map get_config mods) l
  configured_trans mods mods' [] e h = tt
  configured_trans mods mods' (ms ∷ l) e h = (h.0 ∙ e, configured_trans mods mods' l e h.1)

  generate_status_1-Rebuilt :
      (mods mods' : List (BarModule c)) (ev : Option NameInstanceAndReason) (w w₁ : World c)
      → generate_status_1 mods ev w ≡ (ret mods', w₁)
      → (v : World c) × Rebuilt mods ev w mods' v × (with_status mods' v ≡ w₁)
  unfolding generate_status_1
  generate_status_1-Rebuilt mods mods' ev w w₁ e =
      let (r, v, built, done) = bind_inv (build_all mods ev) _ w e in
      let blocks = build_all-shown mods ev w v r built in
      let all : ret r.0 ≡ ret mods' = ap (λ o. o.0) done in
      let ms : r.0 ≡ mods' = cc in
      let end : record v { output = v.output ++ status r.1 ∷ [] } ≡ w₁ = ap (λ o. o.1) done in
      (
        v,
        Rebuilt-of mods ev w v v r.0 mods' (build_all-Rebuilt mods ev w v r built) ms refl,
        rw (sym ms, sym blocks) end,
      )

  Chain-from :
      (mods : List (BarModule c)) (l : List (Option NameInstanceAndReason)) (w v : World c)
      (shots : List (List (BarModule c))) (mods' : List (BarModule c)) (w' : World c)
      → w ≡ v
      → Chain mods l w shots mods' w'
      → Chain mods l v shots mods' w'
  Chain-from mods [] w v shots mods' w' e (none_left, same, at) = (none_left, same, cc)
  Chain-from mods (ev ∷ l) w v shots mods' w' e h = rw (sym e) h

  add_shot :
      (mods mods' mods'' : List (BarModule c)) (ev : Option NameInstanceAndReason)
      (l : List (Option NameInstanceAndReason)) (w w₁ w' : World c)
      → generate_status_1 mods ev w ≡ (ret mods', w₁)
      → Shots mods' l w₁ mods'' w'
      → Shots mods (ev ∷ l) w mods'' w'
  add_shot mods mods' mods'' ev l w w₁ w' e s =
      let (out, ran, cfg) = generate_status_1-shows mods mods' ev w w₁ e in
      let (v, rebuilt, at) = generate_status_1-Rebuilt mods mods' ev w w₁ e in
      record {
        shots = mods' ∷ s.shots;
        chain = (
          mods',
          s.shots,
          v,
          rebuilt,
          Chain-from mods' l w₁ (with_status mods' v) s.shots mods'' w' (sym at) s.chain,
          refl,
        );
        one_each = ap suc s.one_each;
        configured = (cfg, configured_trans mods mods' s.shots cfg s.configured);
        printed =
            s.printed
            ∙ ap (λ o. o ++ map (λ ms. status (map shown ms)) s.shots) out
            ∙ append_assoc w.output (status (map shown mods') ∷ []) _;
        not_ran = s.not_ran ∙ ran;
      }

  status_loop-Shots :
      (mods mods' : List (BarModule c)) (l : List (Option NameInstanceAndReason)) (w w' : World c)
      → status_loop mods l w ≡ (ret mods', w')
      → Shots mods l w mods' w'
  unfolding status_loop
  status_loop-Shots mods mods' [] w w' e =
      let all : ret mods ≡ ret mods' = ap (λ o. o.0) e in
      record {
        shots = [];
        chain = (refl, cc, ap (λ x. x.1) e);
        one_each = refl;
        configured = tt;
        printed = ap (λ x. x.1.output) (sym e) ∙ sym (append-nil w.output);
        not_ran = ap (λ x. x.1.ran) (sym e);
      }
  status_loop-Shots mods mods' (ev ∷ l) w w' e =
      let (ms, u, once, more) = bind_inv (generate_status_1 mods ev) _ w e in
      add_shot mods ms mods' ev l w u w' once (status_loop-Shots ms mods' l u w' more)

  -- The bar's loop, when it returns, has printed below the header one status for each event, in order. The
  -- status for an event shows the texts that the modules have cached which result from building, one after
  -- the other and in the order of the bar, the modules that the event before left (`Chain`, `Rebuilt`);
  -- these keep the configurations of the first ones, and those behind the last event are what it returns.
  -- It has started no command of a click.
  pub generate_status-shows :
      (mods mods' : List (BarModule c)) (received : List (Option NameInstanceAndReason))
      (w w' : World c)
      → generate_status mods received w ≡ (ret mods', w')
      → Shots mods received
          (record w {
            output =
                (w.output ++ line "{\"version\": 1, \"click_events\": true}" ∷ []) ++ line "[" ∷ [];
          })
          mods'
          w'
  unfolding generate_status
  generate_status-shows mods mods' received w w' e = status_loop-Shots mods mods' received _ w' e
