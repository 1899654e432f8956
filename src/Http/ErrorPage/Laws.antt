-- ===== src/Http/ErrorPage/Laws.antt =====
-- What `http_error_page` finds.
use xwp_server.Base.{ℕ, zero, suc, ◌≡◌, refl, List, [], ◌∷◌, ◌++◌, Option, some, get_elem?, arith}
use xwp_server.CLib.{Bytes}
use xwp_server.Http.Table.{found, search}
use xwp_server.Http.ErrorPage.{http_error_pages, http_error_page, http_error_full_tail, message}

-- The search finds the text of each of these entries.
abbrev Finds : List (ℕ × Bytes) → Type 0
Finds [] = Unit {0}
Finds (e ∷ entries) = (search http_error_pages e.0 ≡ found e.1) × Finds entries

Finds-get_elem? :
    (entries : List (ℕ × Bytes)) (i : ℕ) (e : ℕ × Bytes)
    → Finds entries
    → get_elem? entries i ≡ some e
    → search http_error_pages e.0 ≡ found e.1
Finds-get_elem? [] i e f g = cc
Finds-get_elem? (x ∷ entries) zero e f g = ground arith
Finds-get_elem? (x ∷ entries) (suc i) e f g = Finds-get_elem? entries i e f.1 g

pages-Finds : Finds http_error_pages
unfolding search
pages-Finds = (
  refl,
  (
    refl,
    (
      refl,
      (
        refl,
        (
          refl,
          (
            refl,
            (
              refl,
              (
                refl,
                (
                  refl,
                  (
                    refl,
                    (
                      refl,
                      (
                        refl,
                        (
                          refl,
                          (
                            refl,
                            (
                              refl,
                              (
                                refl,
                                (
                                  refl,
                                  (
                                    refl,
                                    (
                                      refl,
                                      (
                                        refl,
                                        (
                                          refl,
                                          (
                                            refl,
                                            (
                                              refl,
                                              (
                                                refl,
                                                (
                                                  refl,
                                                  (
                                                    refl,
                                                    (refl, (refl, (refl, (refl, (refl, tt))))),
                                                  ),
                                                ),
                                              ),
                                            ),
                                          ),
                                        ),
                                      ),
                                    ),
                                  ),
                                ),
                              ),
                            ),
                          ),
                        ),
                      ),
                    ),
                  ),
                ),
              ),
            ),
          ),
        ),
      ),
    ),
  ),
)

-- Although the codes of the table do not grow everywhere (its last entry for 404 stands behind 497),
-- the binary search finds every entry: its text, the message and the tail make up the page.
pub http_error_page_listed :
    (i : ℕ) (e : ℕ × Bytes) (msg : Option Bytes)
    → get_elem? http_error_pages i ≡ some e
    → http_error_page e.0 msg ≡ found (some (e.1 ++ message msg ++ http_error_full_tail))
unfolding http_error_page
http_error_page_listed i e msg g = ground (arith, Finds-get_elem? http_error_pages i e pages-Finds)
