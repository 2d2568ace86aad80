-- ===== src/Elements/Merge/Fresh.antt =====
-- src/browser_runtime/element_index.rs: a reference that was just made of a DOM node.
use hyprfast.Base.{String, ◌≡◌, false, Option}
use hyprfast.Base.Text.{is_empty}
use hyprfast.Frames.{frame_version, is_stale_for_frame}
use hyprfast.Elements.{ElementIndex}
use hyprfast.Elements.Store.{is_stale, is_stale_against}
use hyprfast.Elements.Store.Fresh.{is_unknown, pinned_version, nat_beq_refl}
use hyprfast.Elements.Merge.{DomNodeInfo, AxNodeInfo, merge_dom_ax}

-- A reference made of the nodes of a named frame is current, unless the frame has no version of its
-- own while the frame tree has one: then it is stale at once.
pub merge_dom_ax_stale :
    (ix : ElementIndex) (dom : DomNodeInfo) (ax : Option AxNodeInfo) (target frame : String)
    → is_empty frame ≡ false
    → is_stale ix (merge_dom_ax ix dom ax target frame) ≡ is_unknown ix.frame_manager frame
unfolding merge_dom_ax is_stale is_stale_against is_stale_for_frame
merge_dom_ax_stale ix dom ax target frame h =
    rw (h, nat_beq_refl ix.dom_version, nat_beq_refl ix.target_generation)
      (pinned_version (frame_version ix.frame_manager frame) ix.frame_tree_version)
