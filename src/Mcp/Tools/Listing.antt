-- ===== src/Mcp/Tools/Listing.antt =====
-- The listing of a server's tools: its bounds, and when it is complete.
use kubeflare.Prelude.{
  ℕ, zero, suc, ◌+◌, ◌≤◌, ◌<◌, ◌≡◌, ap, ◌∙◌, sym, String, Bool, true, false, List, [], ◌∷◌, ◌++◌,
  arith, length, leb, length-append, Bool-cases, subst, inl, inr,
}
use mathlib.Core.List.{append_assoc, append-nil}
use kubeflare.Prelude.Fallible.{Fallible, ok, Fallible-cases}
use kubeflare.Prelude.Dots.{is_empty}
use kubeflare.Mcp.Tools.{
  RemoteTool, ListToolsResult, max_tools_per_server, take_page, list_pages, list_tools,
}

-- A page is taken whole, unless the limit is reached.
take_page_bound :
    (tools ts : List RemoteTool)
    → length tools < max_tools_per_server
    → (length (take_page tools ts).0 ≤ max_tools_per_server)
      × ((take_page tools ts).1 ≡ false
          → ((take_page tools ts).0 ≡ tools ++ ts)
            × (length (take_page tools ts).0 < max_tools_per_server))
unfolding take_page
take_page_bound tools [] h = (omega arith, λ e. (sym (append-nil tools), h))
take_page_bound tools (t ∷ ts) h =
    elim (Bool-cases (leb max_tools_per_server (length (tools ++ t ∷ [])))) [
      | inl full ↦ rw full (omega (arith, length-append tools (t ∷ [])), λ e. cc)
      | inr fits ↦ rw fits (
          let (bound, whole) = take_page_bound (tools ++ t ∷ []) ts (ground arith) in
          (bound, λ e. ((whole e).0 ∙ append_assoc tools (t ∷ []) ts, (whole e).1)))
    ]

module _ {E : Type 0} (session : ℕ → String → Fallible E ListToolsResult) where
  -- The pages from this one on, followed by their cursors to the page that names no next one.
  pub data Fetched : ℕ → String → List RemoteTool → Type 0 where
    last :
        {page : ℕ} {cursor : String} {result : ListToolsResult}
        → session page cursor ≡ ok result
        → is_empty result.next_cursor ≡ true
        → Fetched page cursor result.tools
    more :
        {page : ℕ} {cursor : String} {result : ListToolsResult} {rest : List RemoteTool}
        → session page cursor ≡ ok result
        → Fetched (page + 1) result.next_cursor rest
        → Fetched page cursor (result.tools ++ rest)

  -- A listing that goes on from these tools: it stays within the limit, and if it is not marked as
  -- truncated it adds every tool of the pages from this one on.
  abbrev Continues : ℕ → String → List RemoteTool → List RemoteTool → Bool → Type 0
  Continues page cursor tools out truncated =
      (length out ≤ max_tools_per_server)
      × (truncated ≡ false
          → (rest : List RemoteTool) × Fetched page cursor rest × (out ≡ tools ++ rest))

  list_pages-Continues :
      (left page : ℕ) (cursor : String) (tools out : List RemoteTool) (truncated : Bool)
      → length tools < max_tools_per_server
      → list_pages session left page cursor tools ≡ ok (out, truncated)
      → Continues page cursor tools out truncated
  unfolding list_pages
  list_pages-Continues zero page cursor tools out truncated h e =
      (ground arith, λ f. absurd (ground arith))
  list_pages-Continues (suc left) page cursor tools out truncated h e =
      elim (Fallible-cases (session page cursor)) [
        | inr (x, se) ↦ absurd (ground (arith, se))
        | inl (result, se) ↦
            let (bound, whole) = take_page_bound tools result.tools h in
            elim (Bool-cases (take_page tools result.tools).1) [
              | inl full ↦ (ground (arith, se, full, bound), λ f. absurd (ground (arith, se, full)))
              | inr fits ↦ elim (Bool-cases (is_empty result.next_cursor)) [
                | inl done ↦ (
                  ground (arith, se, fits, done, bound),
                  λ f. (result.tools, last se done, ground (arith, se, fits, done, whole fits)),
                )
                | inr on ↦
                    let (b, w) =
                      list_pages-Continues left (page + 1) result.next_cursor
                        (take_page tools result.tools).0 out truncated (whole fits).1
                        (ground (arith, se, fits, on, e)) in
                    (
                      b,
                      λ f.
                          let (rest, pages, same) = w f in
                          (
                            result.tools ++ rest,
                            more se pages,
                            same
                                ∙ ap (λ l. l ++ rest) (whole fits).0
                                ∙ append_assoc tools result.tools rest,
                          ),
                    )
              ]
            ]
      ]

  -- A listing that succeeds has at most `maxToolsPerServer` tools, and one that is not marked as
  -- truncated has exactly the tools of all pages, in order, from the first to the one that names no
  -- next page.
  pub list_tools_complete :
      (tools : List RemoteTool) (truncated : Bool)
      → list_tools session ≡ ok (tools, truncated)
      → (length tools ≤ max_tools_per_server) × (truncated ≡ false → Fetched 0 "" tools)
  unfolding list_tools
  list_tools_complete tools truncated e =
      let (bound, whole) = list_pages-Continues 50 0 "" [] tools truncated (omega arith) e in
      (bound, λ f. let (rest, pages, same) = whole f in subst (Fetched 0 "") (sym same) pages)
