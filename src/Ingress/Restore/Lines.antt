-- ===== src/Ingress/Restore/Lines.antt =====
-- The nested loops of `buildIngressRestore` as a list of lines: a loop emits a list when it does
-- what emitting the lines of that list one by one does.
use mathlib.Core.Path.{fun_ext}
use mathlib.Core.List.{append-nil, append_assoc}
use native.Mathlib.Nat.{add-zero}
use floppyguard.Base.{
  suc, ◌+◌, ◌≤◌, ◌<◌, ◌≡◌, refl, sym, ap, ◌∙◌, true, false, Option, List, [], ◌∷◌, ◌++◌, map, All,
  All-map, All-every, length, filter, flat_map, ltb, arith, inl, inr, Bool-cases,
}
use floppyguard.Base.Text.{Text, codes}
use floppyguard.Result.{Result, ok, err, internal, ◌>>=◌, for_each, for_each-append}
use floppyguard.Ingress.{Port, Rule, max_lines_total}
use floppyguard.Ingress.Restore.{
  Alias, Agent, Line, Built, line_text, emit, port_ok, needs_alias, rule_line, alias_line,
  emit_iface, emit_alias, emit_port, emit_triples,
}

abbrev pub Emits : (Built → Result Built) → List Line → Type 0
Emits f ls = (b : Built) → f b ≡ for_each emit ls b

pub Emits-bind :
    (f g : Built → Result Built) (ls ms : List Line)
    → Emits f ls
    → Emits g ms
    → Emits (λ b. f b >>= g) (ls ++ ms)
Emits-bind f g ls ms hf hg b =
    rw (hf b) (ap (for_each emit ls b >>=◌) (fun_ext hg) ∙ sym (for_each-append emit ls ms b))

pub Emits-for_each :
    {A : Type 0} (body : A → Built → Result Built) (lines : A → List Line) (xs : List A)
    → All (λ x. Emits (body x) (lines x)) xs
    → Emits (for_each body xs) (flat_map lines xs)
unfolding for_each flat_map
Emits-for_each body lines [] h b = refl
Emits-for_each body lines (x ∷ xs) h b =
    Emits-bind (body x) (for_each body xs) (lines x) (flat_map lines xs) h.0
      (Emits-for_each body lines xs h.1) b

-- The lines of one rule, source by source, destination by destination, port by port.
module _ (agent : Agent) (target : Text) (rule : Rule) where
  unfoldable pub port_lines : Text → Option Text → Option Port → List Line
  port_lines src dst p =
      map (rule_line rule target src dst p) (agent.iface ∷ agent.direct_ifaces)
      ++ map (alias_line rule target dst p) (filter (needs_alias agent src) agent.direct_aliases)

  unfoldable pub triple_lines : List Text → List (Option Text) → List (Option Port) → List Line
  unfolding port_lines flat_map
  triple_lines sources dests ports =
      flat_map (λ src. flat_map (λ dst. flat_map (port_lines src dst) ports) dests) sources

  emit_ifaces-Emits :
      (src : Text) (dst : Option Text) (p : Option Port) (ifaces : List Text)
      → port_ok p ≡ true
      → Emits
          (for_each (emit_iface agent target rule src dst p) ifaces)
          (map (rule_line rule target src dst p) ifaces)
  unfolding for_each emit_iface
  emit_ifaces-Emits src dst p [] h b = refl
  emit_ifaces-Emits src dst p (i ∷ is) h b = rw h (
      ap (emit (rule_line rule target src dst p i) b >>=◌)
        (fun_ext (emit_ifaces-Emits src dst p is h)))

  emit_aliases-Emits :
      (src : Text) (dst : Option Text) (p : Option Port) (als : List Alias)
      → Emits
          (for_each (emit_alias agent target rule src dst p) als)
          (map (alias_line rule target dst p) (filter (needs_alias agent src) als))
  unfolding for_each emit_alias filter
  emit_aliases-Emits src dst p [] b = refl
  emit_aliases-Emits src dst p (al ∷ als) b = elim (Bool-cases (needs_alias agent src al)) [
    | inl e ↦ rw e (
        ap (emit (alias_line rule target dst p al) b >>=◌)
          (fun_ext (emit_aliases-Emits src dst p als)))
    | inr e ↦ rw e (emit_aliases-Emits src dst p als b)
  ]

  emit_port-Emits :
      (src : Text) (dst : Option Text) (p : Option Port)
      → port_ok p ≡ true
      → Emits (emit_port agent target rule src dst p) (port_lines src dst p)
  unfolding emit_port port_lines
  emit_port-Emits src dst p h =
      Emits-bind _ _ (map (rule_line rule target src dst p) (agent.iface ∷ agent.direct_ifaces))
        (map (alias_line rule target dst p) (filter (needs_alias agent src) agent.direct_aliases))
        (emit_ifaces-Emits src dst p (agent.iface ∷ agent.direct_ifaces) h)
        (emit_aliases-Emits src dst p agent.direct_aliases)

  pub emit_triples-Emits :
      (sources : List Text) (dests : List (Option Text)) (ports : List (Option Port))
      → All (λ p. port_ok p ≡ true) ports
      → Emits
          (emit_triples agent target rule sources dests ports)
          (triple_lines sources dests ports)
  unfolding emit_triples triple_lines
  emit_triples-Emits sources dests ports h =
      Emits-for_each _ (λ src. flat_map (λ dst. flat_map (port_lines src dst) ports) dests) sources
        (All-every sources (λ src.
          Emits-for_each _ (λ dst. flat_map (port_lines src dst) ports) dests
            (All-every dests (λ dst.
              Emits-for_each _ (port_lines src dst) ports
                (All-map (λ p e. emit_port-Emits src dst p e) ports h)))))

-- Emitting lines one by one: within the cap they are appended and counted, beyond it the payload
-- is refused.
pub emit_all :
    (ls : List Line) (b : Built)
    → b.count + length ls ≤ max_lines_total
    → for_each emit ls b
      ≡ ok (record { lines = b.lines ++ map line_text ls; count = b.count + length ls })
unfolding for_each emit
emit_all [] b h =
    ap ok (λ i. record { lines = sym (append-nil b.lines) i; count = sym (add-zero b.count) i })
emit_all (l ∷ ls) b h =
    let fits : ltb max_lines_total (b.count + 1) ≡ false = ground arith in
    let c : b.count + 1 + length ls ≡ b.count + suc (length ls) = omega arith in
    rw fits (
      emit_all ls (record { lines = b.lines ++ line_text l ∷ []; count = b.count + 1 })
        (omega arith)
      ∙ ap ok (λ i. record {
        lines = append_assoc b.lines (line_text l ∷ []) (map line_text ls) i;
        count = c i;
      }))

pub emit_too_many :
    (ls : List Line) (b : Built)
    → b.count ≤ max_lines_total
    → max_lines_total < b.count + length ls
    → for_each emit ls b ≡ err (internal (codes "more than 4000 ingress lines"))
unfolding for_each emit
emit_too_many [] b h k = absurd (omega arith)
emit_too_many (l ∷ ls) b h k = elim (Bool-cases (ltb max_lines_total (b.count + 1))) [
  | inl e ↦ rw e
  | inr e ↦ rw e (
      emit_too_many ls (record { lines = b.lines ++ line_text l ∷ []; count = b.count + 1 })
        (ground arith) (omega arith))
]
