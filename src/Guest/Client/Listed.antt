-- ===== src/Guest/Client/Listed.antt =====
-- Readdir of the guest's client against the pages that the server's Readdir makes.
use homura.Bytes.{Bytes}
use homura.Guest.Client.Listing.{page_size, and_page, read_pages, read_dir, then_prefetch}
use homura.Guest.Client.Names.{parse_path}
use homura.Guest.Client.{
  Call, readdir, walk, open_file, read_only, walked, sent, with_walked, Remote, Client, Result, ok,
  err, M, bound, and_then, pure, call,
}
use Prim.Native.Nat.{min}
use homura.Prelude.{
  ℕ, zero, suc, ◌+◌, ◌<◌, ◌≡◌, refl, sym, ap, ◌∙◌, subst, true, List, [], ◌∷◌, length, take, drop,
  take-append-drop, length-drop, arith,
}
use homura.VirtualFs.Directory.{Dirent, page}
use homura.VirtualFs.{FileInfo}
use homura.VirtualFs.Pages.{all_entries, page-drop}

drop-nil : {A : Type 0} (n : ℕ) → Path (List A) (drop n []) []
drop-nil zero = refl
drop-nil (suc n) = refl

drop-add : {A : Type 0} (k m : ℕ) (xs : List A) → drop (k + m) xs ≡ drop m (drop k xs)
drop-add zero m xs = ap (λ n. drop n xs) (omega arith)
drop-add (suc k) m [] = drop-nil (suc k + m) ∙ sym (drop-nil m)
drop-add (suc k) m (x ∷ xs) =
    ap (λ n. drop n (x ∷ xs)) {y = suc (k + m)} (omega arith) ∙ drop-add k m xs

drop-length-take : {A : Type 0} (n : ℕ) (xs : List A) → drop (length (take n xs)) xs ≡ drop n xs
drop-length-take zero xs = refl
drop-length-take (suc n) [] = refl
drop-length-take (suc n) (x ∷ xs) = drop-length-take n xs

ok-injective : {A : Type 0} (a b : A) → Path (Result A) (ok a) (ok b) → a ≡ b
ok-injective a b e = cc

bound-ok :
    {A B : Type 0} (r : Result A × Client) (a : A) (f : A → M B)
    → r.0 ≡ ok a
    → (bound r f).0 ≡ (f a r.1).0
bound-ok (ok b, c) a f e = let same : b ≡ a = ok-injective b a e in ap (λ x. (f x c).0) same
bound-ok (err e', c) a f e = cc

take-take : {A : Type 0} (m n : ℕ) (xs : List A) → take m (take n xs) ≡ take (min m n) xs
take-take zero n xs = ap (λ k. take k xs) {x = 0} (omega arith)
take-take (suc m) zero xs = ap (λ k. take k xs) {x = 0} (omega arith)
take-take (suc m) (suc n) [] = sym (ap (λ k. take k []) {y = suc (min m n)} (omega arith))
take-take (suc m) (suc n) (x ∷ xs) =
    ap (λ ys. x ∷ ys) (take-take m n xs)
    ∙ ap (λ k. take k (x ∷ xs)) {x = suc (min m n)} (omega arith)

-- A page, and what is behind it.
and_page-all :
    (n : ℕ) (ds : List Dirent) (m : M (List Dirent)) (c : Client)
    → (0 < length ds → (m c).0 ≡ ok (drop (suc n) ds))
    → (and_page (take (suc n) ds) m c).0 ≡ ok ds
unfolding and_then pure
and_page-all n [] m c e = refl
and_page-all n (d ∷ ds) m c e =
    bound-ok (m c) (drop n ds) _ (e (omega arith)) ∙ ap (λ x. ok (d ∷ x)) (take-append-drop n ds)

-- The number of entries that the client gets: one at least, where there is one.
got : ℕ → ℕ
got extra = min extra 8191

module _ (remote : Remote) (h : ℕ) (all : List Dirent) (extra : List Call → ℕ)
    (serves : (calls : List Call) (offset : ℕ)
      → remote.entries (readdir h offset page_size ∷ calls)
        ≡ take (suc (extra calls)) (take page_size (drop offset all)))
    (accepts : (calls : List Call) (offset : ℕ)
      → remote.accepts (readdir h offset page_size ∷ calls) ≡ true) where
  served :
      (calls : List Call) (offset : ℕ)
      → remote.entries (readdir h offset page_size ∷ calls)
        ≡ take (suc (got (extra calls))) (drop offset all)
  unfolding got
  served calls offset =
      serves calls offset
      ∙ (take-take (suc (extra calls)) page_size (drop offset all)
          ∙ ap (λ k. take k (drop offset all)) {y = suc (min (extra calls) 8191)} (omega arith))

  pages :
      (fuel k : ℕ) (c : Client)
      → length (drop k all) < fuel
      → (read_pages remote fuel h k c).0 ≡ ok (drop k all)
  unfolding read_pages and_then call
  pages zero k c enough = absurd (omega arith)
  pages (suc fuel) k c enough =
      let ds = drop k all in
      let n = got (extra c.calls) in
      let next = k + length (take (suc n) ds) in
      let same : drop next all ≡ drop (suc n) ds =
        drop-add k (length (take (suc n) ds)) all ∙ drop-length-take (suc n) ds in
      rw (and_then, call, accepts c.calls k, served c.calls k)
        (and_page-all n ds _ _ (λ some_left.
          pages fuel next _ (rw (same, length-drop (suc n) ds) (omega arith)) ∙ ap ok same))

  read_pages-all : (c : Client) → (read_pages remote (suc (length all)) h 0 c).0 ≡ ok all
  read_pages-all c = pages (suc (length all)) 0 c (omega arith)

length-all_entries : (i : ℕ) (es : List (Bytes × FileInfo)) → length (all_entries i es) ≡ length es
length-all_entries i [] = refl
length-all_entries i (e ∷ es) = ap suc (length-all_entries (suc i) es)

-- A server that takes the calls of Readdir on a path, and answers each page of a list of files from
-- its beginning, as far as it likes: with one entry at least, where the page has one.
pub record Lists (remote : Remote) (path : Bytes) (es : List (Bytes × FileInfo)) : Type 0 where
  pub extra : List Call → ℕ
  pub walks : (calls : List Call) → remote.accepts (walk (parse_path path) ∷ calls) ≡ true
  pub opens : (h : ℕ) (calls : List Call) → remote.accepts (open_file h read_only ∷ calls) ≡ true
  pub reads :
      (h offset : ℕ) (calls : List Call)
      → remote.accepts (readdir h offset page_size ∷ calls) ≡ true
  pub serves :
      (h offset : ℕ) (calls : List Call)
      → remote.entries (readdir h offset page_size ∷ calls)
        ≡ take (suc (extra calls)) (page offset page_size 0 0 es)

module _ (remote : Remote) (path : Bytes) (es : List (Bytes × FileInfo))
    (server : Lists remote path es) where
  read_pages-all_entries :
      (h : ℕ) (c : Client) → (read_pages remote (suc (length es)) h 0 c).0 ≡ ok (all_entries 0 es)
  read_pages-all_entries h c =
      subst (λ n. (read_pages remote (suc n) h 0 c).0 ≡ ok (all_entries 0 es))
        (length-all_entries 0 es)
        (read_pages-all remote h (all_entries 0 es) server.extra
          (λ calls offset.
            server.serves h offset calls
            ∙ ap (take (suc (server.extra calls))) (page-drop offset page_size es))
          (λ calls offset. server.reads h offset calls) c)

  -- Against a server that takes the calls, and that answers each page of a list of files from
  -- its beginning as far as it likes, with one entry at least where the page has one, the
  -- client's Readdir of the path stops after at most one call of Readdir more than there are
  -- files and returns all entries, once each and in order.
  pub read_dir-all_entries :
      (c : Client) → (read_dir remote (suc (length es)) path c).0 ≡ ok (all_entries 0 es)
  unfolding read_dir and_then with_walked call then_prefetch
  read_dir-all_entries c =
      let h = c.next_handle in
      let c' = walked (sent (walk (parse_path path)) c) in
      let c'' = sent (open_file h read_only) c' in
      rw (read_dir, with_walked, server.walks c.calls)
        (rw (and_then, call, server.opens h c'.calls)
          (bound-ok (read_pages remote (suc (length es)) h 0 c'') (all_entries 0 es)
            (then_prefetch remote path) (read_pages-all_entries h c'')))
