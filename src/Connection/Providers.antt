-- ===== src/Connection/Providers.antt =====
-- connection.c: the list of provider connections as a table.
use project_2_congest.Base.{
  suc, sym, ◌∙◌, some, none, ◌≤◌, ℕ, ◌≡◌, refl, Option, List, [], ◌∷◌, length, arith,
}
use project_2_congest.Connection.{ProviderConnection}
use project_2_congest.Connection.Provider.{
  search_provider_connection, store_provider_connection, remove_provider_connection,
  get_provider_connection_number,
}
use project_2_congest.Connection.Table.{
  Table, Follows, find, replace, erase, Table-Follows, Follows-refl, find-Good, erase-Follows,
  replace-Follows, Table-cons, length-Follows,
}
use project_2_congest.Control.Invariant.{Inv}

abbrev pub key : ProviderConnection → ℕ
key p = p.id

abbrev pub peer : ProviderConnection → Option ℕ
peer p = p.receiver

abbrev pub Providers : ℕ → List ProviderConnection → Type 0
Providers = Table key peer Inv

abbrev pub ProvidersFollow : List ProviderConnection → List ProviderConnection → Type 0
ProvidersFollow = Follows key peer Inv

pub search-eq-find :
    (ps : List ProviderConnection) (r : Option ℕ)
    → search_provider_connection ps r ≡ find key peer Inv ps r
unfolding search_provider_connection find
search-eq-find [] r = refl
search-eq-find (p ∷ ps) r = rw (search-eq-find ps r) refl

pub store-eq-replace :
    (ps : List ProviderConnection) (d : ProviderConnection)
    → store_provider_connection ps d ≡ replace key peer Inv ps d
unfolding store_provider_connection replace
store-eq-replace [] d = refl
store-eq-replace (p ∷ ps) d = rw (store-eq-replace ps d) refl

pub remove-eq-erase :
    (ps : List ProviderConnection) (d : ProviderConnection)
    → remove_provider_connection ps d ≡ erase key peer Inv ps d
unfolding remove_provider_connection erase
remove-eq-erase [] d = refl
remove-eq-erase (p ∷ ps) d = rw (remove-eq-erase ps d) refl

pub number-eq-length :
    (ps : List ProviderConnection) → get_provider_connection_number ps ≡ length ps
unfolding get_provider_connection_number
number-eq-length [] = refl
number-eq-length (p ∷ ps) = omega (arith, number-eq-length ps)

module _ (bound : ℕ) (xs : List ProviderConnection) (t : Providers bound xs) where
  pub Providers-Follow : {ys : List ProviderConnection} → ProvidersFollow ys xs → Providers bound ys
  Providers-Follow f = Table-Follows key peer Inv bound f t

  pub Providers-refl : ProvidersFollow xs xs
  Providers-refl = Follows-refl key peer Inv bound xs t

  pub search-Inv :
      (r : Option ℕ) (c : ProviderConnection) → search_provider_connection xs r ≡ some c → Inv c
  search-Inv r c e = find-Good key peer Inv bound xs r c t (sym (search-eq-find xs r) ∙ e)

  pub remove-ProvidersFollow :
      (c : ProviderConnection) → ProvidersFollow (remove_provider_connection xs c) xs
  remove-ProvidersFollow c = rw (remove-eq-erase xs c) (erase-Follows key peer Inv bound xs c t)

  pub store-ProvidersFollow :
      (r : Option ℕ) (c d : ProviderConnection)
      → search_provider_connection xs r ≡ some c
      → d.id ≡ c.id
      → d.receiver ≡ c.receiver
      → Inv d
      → ProvidersFollow (store_provider_connection xs d) xs
  store-ProvidersFollow r c d e k p g =
      rw (store-eq-replace xs d)
        (replace-Follows key peer Inv bound xs r c d t (sym (search-eq-find xs r) ∙ e) k p g)

  pub Providers-cons :
      (c : ProviderConnection)
      → Inv c
      → c.id ≡ bound
      → search_provider_connection xs c.receiver ≡ none
      → Providers (suc bound) (c ∷ xs)
  Providers-cons c g k e =
      Table-cons key peer Inv bound xs c t g k (sym (search-eq-find xs c.receiver) ∙ e)

pub length-ProvidersFollow :
    {xs ys : List ProviderConnection} → ProvidersFollow ys xs → length ys ≤ length xs
length-ProvidersFollow f = length-Follows key peer Inv f
