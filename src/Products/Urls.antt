-- ===== src/Products/Urls.antt =====
-- The object URLs of the editor of a product's picture (web/src/pages/ProductFormPage.tsx): none is
-- left behind, and none that is shown has been revoked.
use radif.Prelude.{
  ◌==◌, any, keep, ℕ, ◌+◌, ◌<◌, ◌≡◌, refl, Bool, true, false, not, ◌&&◌, ◌||◌, Option, none, some,
  List, [], ◌∷◌, arith,
}
use radif.Shared.Api.{File}
use radif.Products.ImageEditor.{
  State, create_url, revoke_url, open_source, cancel_crop, show_preview, same_url, source_left,
}

unfoldable pub has : ℕ → List ℕ → Bool
has v urls = any (λ u. u == v) urls

unfoldable pub is_url : ℕ → Option ℕ → Bool
is_url v none = false
is_url v (some u) = u == v

-- The URLs that have not been revoked are those of the source and of the preview, which are two.
pub record Owns (s : State) : Type 0 where
  pub owned : (v : ℕ) → has v s.urls ≡ (is_url v s.source || is_url v s.preview)
  pub apart : (v : ℕ) → (is_url v s.source && is_url v s.preview) ≡ false
  pub below : (v : ℕ) → has v s.urls ≡ true → v < s.next_url

has-keep :
    (v u : ℕ) (urls : List ℕ) → has v (keep (λ w. not (w == u)) urls) ≡ (has v urls && not (v == u))
unfolding has
has-keep v u [] = refl
has-keep v u (w ∷ urls) = ground (arith, has-keep v u urls)

without : Option ℕ → List ℕ → List ℕ
without none urls = urls
without (some u) urls = keep (λ w. not (w == u)) urls

has-without :
    (v : ℕ) (old : Option ℕ) (urls : List ℕ)
    → has v (without old urls) ≡ (has v urls && not (is_url v old))
unfolding without is_url
has-without v none urls = ground arith
has-without v (some u) urls = ground (arith, has-keep v u urls)

revoke_url-urls :
    (old : Option ℕ) (s : State) → revoke_url old s ≡ record s { urls = without old s.urls }
unfolding revoke_url without
revoke_url-urls none s = refl
revoke_url-urls (some u) s = refl

owned_below : (s : State) (v : ℕ) → Owns s → is_url v s.source ≡ true → v < s.next_url
owned_below s v o h = o.below v (ground (arith, o.owned v))

-- A source that is left while the preview stays.
drop_source :
    (s : State)
    → Owns s
    → Owns (record s { source = none; urls = without s.source (without s.source s.urls) })
unfolding is_url
drop_source s o = record {
  owned = λ v. ground (
    arith,
    o.owned v,
    o.apart v,
    has-without v s.source (without s.source s.urls),
    has-without v s.source s.urls,
  );
  apart = λ v. refl;
  below = λ v h. o.below v (
      ground
        (arith, has-without v s.source (without s.source s.urls), has-without v s.source s.urls));
}

left_old :
    (old new : Option ℕ) (s : State)
    → s.source ≡ new
    → same_url old new ≡ false
    → source_left old s ≡ revoke_url old s
unfolding source_left
left_old old new s h e = rw (h, e) refl

left_none : (old : Option ℕ) (s : State) → s.source ≡ none → source_left old s ≡ revoke_url old s
unfolding source_left same_url revoke_url
left_none none s h = rw h refl
left_none (some u) s h = rw h refl

fresh : (s : State) → Owns s → is_url s.next_url s.source ≡ false
fresh s o = ground (arith, owned_below s s.next_url o)

same_url-fresh : (old : Option ℕ) (n : ℕ) → is_url n old ≡ false → same_url old (some n) ≡ false
unfolding same_url is_url
same_url-fresh none n h = refl
same_url-fresh (some u) n h = h

pub cancel_crop-Owns : (s : State) → Owns s → Owns (source_left s.source (cancel_crop s))
unfolding cancel_crop
cancel_crop-Owns s o =
    let t : State = record s { source = none; urls = without s.source s.urls } in
    rw (revoke_url-urls s.source s, left_none s.source t refl, revoke_url-urls s.source t)
      (drop_source s o)

opened : State → State
opened s = record s {
  source = some s.next_url;
  area = none;
  error = [];
  urls = s.next_url ∷ without s.source s.urls;
  next_url = s.next_url + 1;
}

opened-Owns : (s : State) → Owns s → Owns (revoke_url s.source (opened s))
unfolding opened is_url has
opened-Owns s o = rw (revoke_url-urls s.source (opened s)) (record {
  owned = λ v. ground (
    arith,
    o.owned v,
    o.apart v,
    fresh s o,
    has-without v s.source (opened s).urls,
    has-without v s.source s.urls,
  );
  apart = λ v. ground (arith, o.owned v, o.below v);
  below = λ v h.
      ground
        (arith, o.below v, has-without v s.source (opened s).urls, has-without v s.source s.urls);
})

pub open_source-Owns : (s : State) → Owns s → Owns (source_left s.source (open_source s))
unfolding open_source create_url opened
open_source-Owns s o =
    rw
      (
        revoke_url-urls s.source s,
        left_old s.source (some s.next_url) (opened s) refl
            (same_url-fresh s.source s.next_url (fresh s o)),
      )
      (opened-Owns s o)

pub show_preview-Owns : (f : Option File) (s : State) → Owns s → Owns (show_preview f s)
unfolding show_preview create_url is_url has
show_preview-Owns none s o = rw (revoke_url-urls s.preview s) (record {
  owned = λ v. ground (arith, o.owned v, o.apart v, has-without v s.preview s.urls);
  apart = λ v. ground arith;
  below = λ v h. o.below v (ground (arith, has-without v s.preview s.urls));
})
show_preview-Owns (some f) s o = rw (revoke_url-urls s.preview s) (record {
  owned = λ v. ground (arith, o.owned v, o.apart v, has-without v s.preview s.urls);
  apart = λ v. ground (arith, owned_below s v o);
  below = λ v h. ground (arith, o.below v, has-without v s.preview s.urls);
})
