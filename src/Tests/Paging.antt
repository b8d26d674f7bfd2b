-- ===== src/Tests/Paging.antt =====
-- Tests and witnesses of the guest's page tables, GuestPaging: a buffer over two pages that lie apart.
use bedrock.Base.{ℕ, ◌≡◌, refl, Option, none, some, [], ◌∷◌, match_key, arith}
use bedrock.GuestPaging.{
  translate_gva_to_gpa, translate_gva_range_to_gpas, in_pdpt, in_pd, in_pt, page_4k,
  translate_pages,
}
use bedrock.Memory.{pml4_index, pdpt_index, pd_index, pt_index}
use bedrock.GuestPaging.Range.{translate_gva_range_to_gpas-translate_gva_to_gpa}

abbrev guest_memory : ℕ → Option ℕ
guest_memory a =
    match_key a
      ((0x1000, some 0x2003)
        ∷ (0x2000, some 0x3003)
        ∷ (0x3000, some 0x4003)
        ∷ (0x4080, some 0x7003)
        ∷ (0x4088, some 0x5003)
        ∷ [])
      none

two_pages :
    translate_gva_range_to_gpas (some 0x1000) guest_memory 0x1_0FFE 6 4
    ≡ some (0x7000 ∷ 0x5000 ∷ [])
unfolding translate_gva_range_to_gpas translate_pages translate_gva_to_gpa in_pdpt in_pd in_pt
    page_4k pml4_index pdpt_index pd_index pt_index
two_pages = refl

unmapped : translate_gva_range_to_gpas (some 0x1000) guest_memory 0x1_1FFE 6 4 ≡ none
unfolding translate_gva_range_to_gpas translate_pages translate_gva_to_gpa in_pdpt in_pd in_pt
    page_4k pml4_index pdpt_index pd_index pt_index
unmapped = refl

translate_gva_range_to_gpas-translate_gva_to_gpa_example :
    translate_gva_to_gpa (some 0x1000) guest_memory 0x1_1002 ≡ some 0x5002
translate_gva_range_to_gpas-translate_gva_to_gpa_example =
    translate_gva_range_to_gpas-translate_gva_to_gpa (some 0x1000) guest_memory 0x1_0FFE 6 4
      (0x7000 ∷ 0x5000 ∷ []) (omega arith) two_pages 0x1_1002 (omega arith) (omega arith)
