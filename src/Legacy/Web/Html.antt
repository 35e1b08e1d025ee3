-- ===== src/Legacy/Web/Html.antt =====
-- The fixed parts of the HTML page that `http_thread` sends.
use netdj.Prelude.{[], ◌∷◌, ◌++◌, Text, codes}
use netdj.Legacy.Text.{flat}
use netdj.Legacy.Http.{crlf}

unfoldable pub hbuf1 : Text
hbuf1 = flat (
    (codes "HTTP/1.1 200 OK" ++ crlf)
    ∷ (codes "Server: NetDJ" ++ crlf)
    ∷ (codes "Connection: close" ++ crlf)
    ∷ (codes "Content-Type: text/html; charset=iso-8859-1" ++ crlf)
    ∷ crlf
    ∷ codes "<!DOCTYPE HTML PUBLIC \"-//W3C//DTD HTML 4.01 Transitional//EN\">\n"
    ∷ codes "<HTML>\n"
    ∷ codes "  <HEAD>\n"
    ∷ codes "    <META HTTP-EQUIV=\"Pragma\" CONTENT=\"no-cache\">\n"
    ∷ codes "    <META HTTP-EQUIV=\"Refresh\" CONTENT=\"30;URL=/\">\n"
    ∷ codes "    <STYLE TYPE=\"text/css\">\n"
    ∷ codes "      body.dummy {}\n"
    ∷ codes "      body {\n"
    ∷ codes "        font-size: 10pt;\n"
    ∷ codes "      }\n"
    ∷ codes "      table {\n"
    ∷ codes "        font-size: 10pt;\n"
    ∷ codes "      }\n"
    ∷ codes "      form {\n"
    ∷ codes "        font-size: 10pt;\n"
    ∷ codes "      }\n"
    ∷ codes "    </STYLE>\n"
    ∷ codes "    <TITLE>NetDJ</TITLE>\n"
    ∷ codes "  </HEAD>\n"
    ∷ codes "  <BODY>\n"
    ∷ codes "    <SCRIPT LANGUAGE=\"JavaScript\" TYPE=\"text/javascript\">\n"
    ∷ codes "      function addNetscapePanel() {\n"
    ∷ codes "        if ((typeof window.sidebar == \"object\")\n"
    ∷ codes "            && (typeof window.sidebar.addPanel == \"function\"))\n"
    ∷ codes "          {\n"
    ∷ codes "            window.sidebar.addPanel (\"NetDJ\", window.location,\"\");\n"
    ∷ codes "          }\n"
    ∷ codes "      }\n"
    ∷ codes "    </SCRIPT>\n"
    ∷ codes "    <A HREF=\"http://netdj.sourceforge.net\">NetDJ</A> is currently playing:\n"
    ∷ codes "    <P>\n"
    ∷ codes "    <FORM TARGET=\"_CONTENT\" ACTION=\"http://www.google.com/search\">\n"
    ∷ codes "      <INPUT maxLength=256 size=55 name=q value=\""
    ∷ [])

unfoldable pub hbuf2 : Text
hbuf2 = flat (
    codes "\">\n"
    ∷ codes "      <INPUT TYPE=SUBMIT VALUE=\"Google Search\" NAME=btnG>\n"
    ∷ codes "    </FORM>\n"
    ∷ codes "    <P>\n"
    ∷ codes "    [<A HREF=\"/\">Refresh</A>]\n"
    ∷ codes "    - [<A HREF=\"/cgi-bin/next?id="
    ∷ [])

unfoldable pub hbuf3 : Text
hbuf3 = flat (
    codes "\">Skip song</A>]\n"
    ∷ codes "    - [<A HREF=\"/cgi-bin/stop\">Stop player</A>]\n"
    ∷ codes "    - [<A HREF=\"/cgi-bin/start\">Start player</A>]\n"
    ∷ codes "    <P>\n"
    ∷ codes "    <STRONG>Next songs in cache:</STRONG><BR>\n"
    ∷ [])

unfoldable pub hbuf4 : Text
hbuf4 = flat (
    codes "    <P>\n"
    ∷ codes "    <STRONG>Playlists:</STRONG><BR>\n"
    ∷ codes "    <TABLE BORDER=1>\n"
    ∷ codes "      <TR><TD><B>Size</B></TD><TD><B>Name</B></TD><TD><B>Description</B></TD></TR>\n"
    ∷ [])

unfoldable pub hbuf5 : Text
hbuf5 = flat (
    codes "    </TABLE>\n"
    ∷ codes "    <P>\n"
    ∷ codes "    Add to <A HREF=\"javascript:addNetscapePanel();\">Netscape sidebar</A>"
    ∷ codes " - <A HREF=\"/\" REL=\"sidebar\" TITLE=\"NetDJ\">Opera panel</A>\n"
    ∷ codes "  </BODY>\n"
    ∷ codes "</HTML>\n"
    ∷ [])

-- the body of the answer that asks for a password
unfoldable pub auth_body : Text
auth_body = flat (
    codes "<!DOCTYPE HTML PUBLIC \"-//W3C//DTD HTML 4.01 Transitional//EN\">\n"
    ∷ codes "<HTML>\n"
    ∷ codes "  <HEAD>\n"
    ∷ codes "    <TITLE>NetDJ</TITLE>\n"
    ∷ codes "  </HEAD>\n"
    ∷ codes "  <BODY>\n"
    ∷ codes "    Authorization required!\n"
    ∷ codes "  </BODY>\n"
    ∷ codes "</HTML>\n"
    ∷ [])
