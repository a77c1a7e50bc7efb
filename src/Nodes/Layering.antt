-- ===== src/Nodes/Layering.antt =====
-- src/buildstream/node.pyx, lists with directives: composing them in layers.
use buildstream.Common.{◌≡◌, refl, ap, sym, Option, none, some}
use buildstream.Nodes.{
  Items, no_items, item, join, Directives, or_empty, cleared, prefixed, suffixed, compose_on_list,
  compose_on_composite_dict,
}

join-no_items : (xs : Items) → join xs no_items ≡ xs
join-no_items no_items = refl
join-no_items (item x xs) = ap (item x) (join-no_items xs)

pub join_assoc : (xs ys zs : Items) → join (join xs ys) zs ≡ join xs (join ys zs)
join_assoc no_items ys zs = refl
join_assoc (item x xs) ys zs = ap (item x) (join_assoc xs ys zs)

or_empty-cleared : (xs ys : Option Items) → or_empty (cleared xs ys) ≡ or_empty xs
or_empty-cleared (some xs) ys = refl
or_empty-cleared none none = refl
or_empty-cleared none (some ys) = refl

or_empty-prefixed :
    (xs ys : Option Items) → or_empty (prefixed xs ys) ≡ join (or_empty xs) (or_empty ys)
or_empty-prefixed none ys = refl
or_empty-prefixed (some xs) none = sym (join-no_items xs)
or_empty-prefixed (some xs) (some ys) = refl

or_empty-suffixed :
    (xs ys : Option Items) → or_empty (suffixed xs ys) ≡ join (or_empty ys) (or_empty xs)
or_empty-suffixed none ys = sym (join-no_items (or_empty ys))
or_empty-suffixed (some xs) none = refl
or_empty-suffixed (some xs) (some ys) = refl

layered :
    (c p s : Option Items) (e : Directives) (xs : Items)
    → let d : Directives = record { clobber = c; prefix = p; suffix = s } in
      compose_on_list (compose_on_composite_dict d e) xs ≡ compose_on_list d (compose_on_list e xs)
unfolding compose_on_list compose_on_composite_dict
layered (some c) p s e xs = simp (or_empty-cleared)
layered none p s e xs = simp (or_empty-prefixed, or_empty-suffixed, join_assoc)

-- Composing two layers of directives onto a list at once or one after the other is the same.
pub compose_on_list-compose_on_composite_dict :
    (d e : Directives) (xs : Items)
    → compose_on_list (compose_on_composite_dict d e) xs ≡ compose_on_list d (compose_on_list e xs)
compose_on_list-compose_on_composite_dict d e xs = layered d.clobber d.prefix d.suffix e xs
