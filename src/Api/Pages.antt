-- ===== src/Api/Pages.antt =====
-- Whose items `Index` of app/http/controllers/drive_item_controller.go lists.
use ponta_drive_api.Base.{
  ℕ, ◌≤◌, ◌≡◌, refl, sym, subst, ap, true, ◌==◌, Option, none, some, List, map, length, arith,
  Bool-cases, Option-cases, inl, inr, and_split, ==_iff,
}
use ponta_drive_api.Base.Text.{Text, text, is_empty}
use ponta_drive_api.Base.Order.Sort.{All}
use ponta_drive_api.Models.{DriveItem, CloudAccount}
use ponta_drive_api.Service.{Outside, State, found, found_account, found_item}
use ponta_drive_api.Service.Factory.{owned_account, ensure_cloud_account_ownership}
use ponta_drive_api.Service.Items.{resolve_drive_item_id, with_uuid}
use ponta_drive_api.Service.Runs.{found-some}
use ponta_drive_api.Service.Drivers.{Answers}
use ponta_drive_api.Listing.{Server, normalize_sort_field, normalize_sort_order}
use ponta_drive_api.Listing.Query.{
  Filter, CursorCodec, Page, IndexResult, page, invalid_cursor, list_failed, index_page,
}
use ponta_drive_api.Web.{Response, payload, go, ended, Handler, ◌>>=◌, ◌>>◌}
use ponta_drive_api.Web.Reads.{Reads, Reads-then, Reads-ended}
use ponta_drive_api.Auth.{User}
use ponta_drive_api.Api.{Caller, item_view, call, fail_with, signed_in}
use ponta_drive_api.Api.Sync.{to_uint}
use ponta_drive_api.Api.Listing.{
  IndexQuery, ItemPage, listed_page, listed_account, listed_folder, default_of, account_page, index,
}
use ponta_drive_api.Base.Order.Sort.{All-map}
use ponta_drive_api.Listing.Shown.{filter_holds-owner, Wanted, index_page-Wanted}

module _ {S : Type 0} (o : Outside S) (server : Server) (codec : CursorCodec) (caller : Caller)
    (answers : Answers (λ (a : CloudAccount). a.id) o.accounts) where
  -- The page of a user: what `Index` answers with in a state.
  abbrev pub OwnPage : IndexQuery → State S → ItemPage → Type 0
  OwnPage q s p =
      (user : User) × (account : CloudAccount) × (parent : Option ℕ) × (rows : List DriveItem)
      × (items : List DriveItem) × (found (λ (u : User). u.id) caller.user ≡ some user)
      × (account.user_id ≡ user.id)
      × (listed_folder o server codec caller user.id q.parent_uuid s ≡ (go parent, s))
      × (o.items.get (λ _. true) s.outside ≡ some rows)
      × All
          (Wanted server codec rows (record {
            user_id = user.id;
            cloud_account_id = account.id;
            parent_id = parent;
            search = q.search;
            item_type = q.item_type;
          }))
          items
      × All (λ x. (x.user_id ≡ user.id) × (x.cloud_account_id ≡ account.id)) items
      × (length items ≤ 100)
      × (p.items ≡ map item_view items)

  abbrev Owned : ℕ → ℕ → Type 0
  Owned user_id account_id =
      (account : CloudAccount) × (account.id ≡ account_id) × (account.user_id ≡ user_id)

  ensured :
      (user_id account_id : ℕ) (s : State S)
      → Reads
          (λ _. Owned user_id account_id)
          s
          (call {D = ItemPage}
            (ensure_cloud_account_ownership o user_id account_id)
            (fail_with 404 (text "drive.cloud_account_required"))
            s)
  unfolding ensure_cloud_account_ownership fail_with
  ensured user_id account_id s =
      let row = o.accounts.first (owned_account user_id account_id) s.outside in
      elim (Bool-cases (account_id == 0)) [
        | inl no_id ↦ rw no_id (λ d k. absurd cc)
        | inr given ↦ elim (Option-cases (found_account row)) [
          | inl nothing ↦ rw given (rw (nothing, Reads) (λ d k. absurd cc))
          | inr (account, there) ↦
              let (at, saved) = found-some (λ (a : CloudAccount). a.id) row account there in
              let met =
                and_split (account.id == account_id) (account.user_id == user_id)
                  (elim (answers (owned_account user_id account_id) s.outside account at) [
                    | inl no_row ↦ absurd (omega arith)
                    | inr owned ↦ owned
                  ]) in
              let same = (==_iff account.id account_id).0 met.0 in
              let own = (==_iff account.user_id user_id).0 met.1 in
              let run : call {D = ItemPage} (ensure_cloud_account_ownership o user_id account_id)
                    (fail_with 404 (text "drive.cloud_account_required")) s
                  ≡ (go tt, s) =
                ground arith in
              subst (Reads (λ _. Owned user_id account_id) s) (sym run) ((account, same, own), refl)
        ]
      ]

  account_read :
      (user_id account_id : ℕ) (s : State S)
      → Reads (λ _. Unit {0}) s (listed_account o server codec caller user_id account_id s)
  unfolding listed_account
  account_read user_id account_id s = elim (Bool-cases (account_id == 0)) [
    | inr given ↦ rw given (tt, refl)
    | inl not_given ↦
        elim (Option-cases (found_account (o.accounts.first (default_of user_id) s.outside))) [
          | inl nothing ↦ rw not_given (rw nothing (λ d k. absurd cc))
          | inr (account, there) ↦ rw not_given (rw there (tt, refl))
        ]
  ]

  folder_read :
      (user_id : ℕ) (parent_uuid : Text) (s : State S)
      → Reads (λ _. Unit {0}) s (listed_folder o server codec caller user_id parent_uuid s)
  unfolding listed_folder resolve_drive_item_id fail_with
  folder_read user_id parent_uuid s = elim (Bool-cases (is_empty parent_uuid)) [
    | inl root ↦ rw root (tt, refl)
    | inr given ↦
        elim (Option-cases (found_item (o.items.first (with_uuid user_id parent_uuid) s.outside))) [
          | inl nothing ↦ rw given (rw (nothing, Reads) (λ d k. absurd cc))
          | inr (item, there) ↦
              let run : listed_folder o server codec caller user_id parent_uuid s
                  ≡ (go (some item.id), s) =
                ground arith in
              subst (Reads (λ _. Unit {0}) s) (sym run) (tt, refl)
        ]
  ]

  listed_page-page :
      (r : IndexResult) (p : ItemPage)
      → listed_page r ≡ payload 200 p
      → (shown : Page) × (r ≡ page shown) × (p.items ≡ map item_view shown.items)
  unfolding listed_page
  listed_page-page (page shown) p e =
      let same : p ≡ record {
        items = map item_view shown.items;
        has_more = shown.has_more;
        next_cursor = shown.next_cursor;
      } =
        cc in
      (shown, refl, ap (λ (d : ItemPage). d.items) same)
  listed_page-page invalid_cursor p e = absurd cc
  listed_page-page list_failed p e = absurd cc

  abbrev Answer : IndexQuery → State S → Response ItemPage → Type 0
  Answer q s r = (d : ItemPage) → r ≡ payload 200 d → OwnPage q s d

  account_page-Reads :
      (q : IndexQuery) (s : State S) (user : User) (account : CloudAccount) (parent : Option ℕ)
      → found (λ (u : User). u.id) caller.user ≡ some user
      → account.user_id ≡ user.id
      → listed_folder o server codec caller user.id q.parent_uuid s ≡ (go parent, s)
      → Reads (Answer q s) s (account_page o server codec caller q user.id account.id parent s)
  unfolding account_page
  account_page-Reads q s user account parent known own at = (
    λ d k.
        let f : Filter = record {
          user_id = user.id;
          cloud_account_id = account.id;
          parent_id = parent;
          search = q.search;
          item_type = q.item_type;
        } in
        let col = normalize_sort_field q.sort in
        let dir = normalize_sort_order q.order in
        let answered = o.items.get (λ _. true) s.outside in
        let (shown, is_page, same) =
          listed_page-page (index_page server codec answered f col dir q.limit q.cursor) d k in
        let (rows, there, wanted, short) =
          index_page-Wanted server codec answered f col dir q.limit q.cursor shown is_page in
        let owned =
          All-map (Wanted server codec rows f)
            (λ x. (x.user_id ≡ user.id) × (x.cloud_account_id ≡ account.id))
            (λ x m. filter_holds-owner server f x m.1) shown.items wanted in
        (
          user, account, parent, rows, shown.items, known, own, at, there, wanted, owned, short,
          same,
        ),
    refl,
  )

  -- What `Index` does once the account is known.
  abbrev in_account : IndexQuery → ℕ → ℕ → Handler (State S) ItemPage (Response ItemPage)
  in_account q user_id account_id =
      listed_folder o server codec caller user_id q.parent_uuid
      >>= account_page o server codec caller q user_id account_id

  abbrev at_account : IndexQuery → ℕ → ℕ → Handler (State S) ItemPage (Response ItemPage)
  at_account q user_id account_id =
      call (ensure_cloud_account_ownership o user_id account_id)
        (fail_with 404 (text "drive.cloud_account_required"))
      >> in_account q user_id account_id

  in_account-Reads :
      (q : IndexQuery) (s : State S) (user : User) (account : CloudAccount)
      → found (λ (u : User). u.id) caller.user ≡ some user
      → account.user_id ≡ user.id
      → Reads (Answer q s) s (in_account q user.id account.id s)
  in_account-Reads q s user account known own =
      Reads-then (λ _. Unit {0}) (Answer q s) s
        (listed_folder o server codec caller user.id q.parent_uuid s)
        (account_page o server codec caller q user.id account.id)
        (folder_read user.id q.parent_uuid s)
        λ parent at _. account_page-Reads q s user account parent known own at

  at_account-Reads :
      (q : IndexQuery) (s : State S) (user : User) (account_id : ℕ)
      → found (λ (u : User). u.id) caller.user ≡ some user
      → Reads (Answer q s) s (at_account q user.id account_id s)
  at_account-Reads q s user account_id known =
      Reads-then (λ _. Owned user.id account_id) (Answer q s) s
        (call (ensure_cloud_account_ownership o user.id account_id)
          (fail_with 404 (text "drive.cloud_account_required")) s)
        (λ _. in_account q user.id account_id) (ensured user.id account_id s)
        λ _ _ (account, same, own).
          subst (λ n. Reads (Answer q s) s (in_account q user.id n s)) same
            (in_account-Reads q s user account known own)

  index-Reads :
      (q : IndexQuery) (s : State S) (known : Option User)
      → found (λ (u : User). u.id) caller.user ≡ known
      → Reads (Answer q s) s (index o server codec caller q s)
  unfolding index signed_in
  index-Reads q s none nobody = rw nobody (λ d k. absurd cc)
  index-Reads q s (some user) known =
      let id = to_uint q.cloud_account_id in
      rw known (
        Reads-then (λ _. Unit {0}) (Answer q s) s
          (listed_account o server codec caller user.id id s) (at_account q user.id)
          (account_read user.id id s)
          (λ account_id _ _. at_account-Reads q s user account_id known))

  -- Where a query for one account answers with a row that meets its conditions: when `Index` answers
  -- with a page, there is a user in the context, the account is the user's own, the page shows at most
  -- 100 of the rows that the query answers with, each of which has the user's id and the account's and
  -- meets the other conditions of the request, and nothing is written.
  pub index-OwnPage :
      (q : IndexQuery) (s s' : State S) (p : ItemPage)
      → ended (index o server codec caller q s) ≡ (payload 200 p, s')
      → OwnPage q s p × (s' ≡ s)
  index-OwnPage q s s' p e =
      let run = index o server codec caller q s in
      let (own, kept) =
        Reads-ended (Answer q s) s s' p run (index-Reads q s (found (λ u. u.id) caller.user) refl)
          e in
      (own p refl, kept)
