-- ===== src/Tests/Index.antt =====
-- The merge of two small memory indexes.
use go_claude_teleport.Base.{true, Bytes, codes, refl}
use go_claude_teleport.FilePath.{split_on}
use go_claude_teleport.Session.MemoryIndex.{content, newline, merge_memory_index}
use go_claude_teleport.Session.MemoryIndex.Adds.{text_of}
use go_claude_teleport.Session.MemoryIndex.Means.{IsMerge, merge_memory_index-Adds}

-- The last line is not terminated.
abbrev old_index : Bytes
old_index = codes "- a\n- b"

abbrev source_index : Bytes
source_index = codes "- b \n- c\r\n\n- c\n"

abbrev new_index : Bytes
new_index = codes "- a\n- b\n- c\n"

merge_memory_index-Adds_example :
    IsMerge (text_of (content old_index)) (split_on newline source_index) new_index 1
unfolding merge_memory_index
merge_memory_index-Adds_example =
    merge_memory_index-Adds (content old_index) source_index true true new_index 1 refl
